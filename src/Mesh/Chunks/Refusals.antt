-- ===== src/Mesh/Chunks/Refusals.antt =====
-- src/mesh/ble/protocol.ts: what `encodeChunks` and `decodeChunks` refuse.
use edgecoder.Prelude.{
  ℕ, zero, suc, ◌+◌, ◌-◌, ◌*◌, ◌/◌, ◌%◌, ◌≤◌, ◌<◌, ◌≡◌, ◌≢◌, ◌↔◌, inl, inr, refl, sym, ap, ◌∙◌,
  true, false, List, [], ◌∷◌, arith, ltb, ltb→lt, leb, ◌==◌, ok, err, length, length-take_le,
  length-sort_by, drop, all_of_All, sort_by, In, All-sort_by, All, All-In, Bool-cases,
}
use edgecoder.Mesh.Chunks.{
  Buffer, wrong_count, chunks_from, total_chunks, encode_chunks, seq_no, decode_sorted,
  decode_chunks, chunk_header_size, read_uint16_be,
}
use edgecoder.Mesh.Chunks.RoundTrip.{
  chunk_size, encode_lem, decode_nonempty, chunks-readable, length-chunks_from, total-enough,
}
use native.Mathlib.Nat.{native_laws}

module _ (payload : Buffer) (mtu : ℕ) where
  chunks_from-fit :
      (total i rounds : ℕ)
      → chunk_header_size < mtu
      → All (λ c. length c ≤ mtu) (chunks_from payload (chunk_size mtu) total i rounds)
  unfolding chunks_from
  chunks_from-fit total i zero h = tt
  chunks_from-fit total i (suc rounds) h =
      let size = chunk_size mtu in
      (
        omega (arith, h, length-take_le size (drop (i * size) payload)),
        chunks_from-fit total (suc i) rounds h,
      )

  -- A payload is refused just if the largest packet has no room for data beyond the header, or the
  -- data do not fit 65535 chunks of the size that is left.
  pub encode_iff :
      ((cs : List Buffer) × (encode_chunks payload mtu ≡ ok cs))
      ↔ ((chunk_header_size < mtu) × (length payload ≤ 65535 * (mtu - chunk_header_size)))
  unfolding encode_chunks
  encode_iff =
      let size = chunk_size mtu in
      let total = total_chunks payload size in
      (
        λ made.
            let (big, few, same) = encode_lem payload mtu made.0 made.1 in
            let enough = total-enough payload size (omega (arith, big)) in
            let most : size * total ≤ size * 65535 = native_laws.mul-le-mul_left size few in
            (big, omega (arith, enough, most)),
        λ fits. (
          chunks_from payload size total 0 total,
          elim (Bool-cases (ltb 65535 total)) [
            | inl many ↦
                let lower : size * 65536 ≤ size * total =
                  native_laws.mul-le-mul_left size (omega (arith, ltb→lt 65535 total many)) in
                let upper = native_laws.div-mul-le_self (length payload + (size - 1)) size in
                let no : ⊥ = omega (arith, lower, upper, fits) in elim no [ ]
            | inr few ↦ let big : leb mtu 4 ≡ false = ground arith in rw (big, few) refl
          ],
        ),
      )

  -- No chunk is larger than the packets of the link.
  pub encode-fit :
      (cs : List Buffer) → encode_chunks payload mtu ≡ ok cs → All (λ c. length c ≤ mtu) cs
  encode-fit cs h =
      let (big, few, made) = encode_lem payload mtu cs h in
      let total = total_chunks payload (chunk_size mtu) in
      rw (← made) (chunks_from-fit total 0 total big)

module _ (payload : Buffer) (size total : ℕ) where
  chunks_from-total :
      (i rounds : ℕ)
      → All (λ c. read_uint16_be c 2 ≡ ok total) (chunks_from payload size total i rounds)
  unfolding chunks_from
  chunks_from-total i zero = tt
  chunks_from-total i (suc rounds) =
      let t : total / 256 * 256 + total % 256 ≡ total = omega arith in
      (rw t refl, chunks_from-total (suc i) rounds)

All-of_All :
    (P : Buffer → Type 0) (cs ds : List Buffer) → All P cs → All (λ d. In d cs) ds → All P ds
All-of_All P cs [] h k = tt
All-of_All P cs (d ∷ ds) h k = (All-In P h k.0, All-of_All P cs ds h k.1)

decode_sorted-refuses :
    (total : ℕ) (sorted : List Buffer)
    → 0 < length sorted
    → All (λ c. read_uint16_be c 2 ≡ ok total) sorted
    → length sorted ≢ total
    → decode_sorted sorted ≡ err (wrong_count total (length sorted))
unfolding decode_sorted
decode_sorted-refuses total [] pos h other = let no : ⊥ = omega (arith, pos) in elim no [ ]
decode_sorted-refuses total (c ∷ cs) pos h other =
    let q : (suc (length cs) == total) ≡ false = ground arith in rw (h.0, q) refl

decode-refuses :
    (payload : Buffer) (size total : ℕ) (ds : List Buffer)
    → All (λ d. In d (chunks_from payload size total 0 total)) ds
    → 0 < length ds
    → length ds ≢ total
    → decode_chunks ds ≡ err (wrong_count total (length ds))
decode-refuses payload size total ds among pos other =
    let cs = chunks_from payload size total 0 total in
    let totals =
      All-of_All (λ c. read_uint16_be c 2 ≡ ok total) cs ds
        (chunks_from-total payload size total 0 total) among in
    let readable =
      all_of_All (λ c. leb 2 (length c)) ds
        (All-of_All (λ c. leb 2 (length c) ≡ true) cs ds
          (chunks-readable payload size total 0 total) among) in
    let n = length-sort_by seq_no ds in
    decode_nonempty ds pos (ground arith)
    ∙ decode_sorted-refuses total (sort_by seq_no ds) (omega (arith, n, pos))
        (All-sort_by seq_no (λ c. read_uint16_be c 2 ≡ ok total) ds totals) (λ e. other (sym n ∙ e))
    ∙ rw n refl

-- Chunks of one payload, of which at least one came, are refused with both counts unless they are
-- as many as were made.
pub loss_detected :
    (payload : Buffer) (mtu : ℕ) (cs ds : List Buffer)
    → encode_chunks payload mtu ≡ ok cs
    → All (λ d. In d cs) ds
    → 0 < length ds
    → length ds ≢ length cs
    → decode_chunks ds ≡ err (wrong_count (length cs) (length ds))
loss_detected payload mtu cs ds h among pos other =
    let size = chunk_size mtu in
    let total = total_chunks payload size in
    let (big, few, made) = encode_lem payload mtu cs h in
    let n : length cs ≡ total =
      ap length (sym made) ∙ length-chunks_from payload size total 0 total in
    rw n (decode-refuses payload size total ds (rw made among) pos (λ e. other (e ∙ sym n)))
