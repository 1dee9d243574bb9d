-- ===== src/Mesh/Chunks/Tests.antt =====
-- Runs of src/mesh/ble/protocol.ts, and its theorems at concrete payloads.
use mathlib.Core.List.{Permᴰ}
use edgecoder.Prelude.{◌≡◌, refl, [], ◌∷◌, ok, err, arith, here, there}
use edgecoder.Mesh.Chunks.{Buffer, encode_chunks, chunks_from, decode_chunks, wrong_count}
use edgecoder.Mesh.Chunks.RoundTrip.{decode-encode}
use edgecoder.Mesh.Chunks.Refusals.{loss_detected}

abbrev payload : Buffer
payload = 10 ∷ 20 ∷ 30 ∷ 40 ∷ 50 ∷ []

abbrev zeroth : Buffer
zeroth = 0 ∷ 0 ∷ 0 ∷ 3 ∷ 10 ∷ 20 ∷ []

abbrev second : Buffer
second = 0 ∷ 1 ∷ 0 ∷ 3 ∷ 30 ∷ 40 ∷ []

abbrev third : Buffer
third = 0 ∷ 2 ∷ 0 ∷ 3 ∷ 50 ∷ []

encoded : encode_chunks payload 6 ≡ ok (zeroth ∷ second ∷ third ∷ [])
unfolding encode_chunks chunks_from
encoded = refl

decode-encode_example : decode_chunks (second ∷ zeroth ∷ third ∷ []) ≡ ok payload
decode-encode_example =
    decode-encode payload 6 (zeroth ∷ second ∷ third ∷ []) (second ∷ zeroth ∷ third ∷ []) encoded
      (Permᴰ.swap refl refl)

loss_detected_example : decode_chunks (third ∷ zeroth ∷ []) ≡ err (wrong_count 3 2)
loss_detected_example =
    loss_detected payload 6 (zeroth ∷ second ∷ third ∷ []) (third ∷ zeroth ∷ []) encoded
      (there (there here), (here, tt)) (omega arith) (λ e. omega (arith, e))
