-- ===== src/Mesh/Chunks/RoundTrip.antt =====
-- src/mesh/ble/protocol.ts: what is decoded from chunks in any order is what was encoded.
use mathlib.Core.List.{Permᴰ}
use edgecoder.Prelude.{
  ℕ, zero, suc, ◌+◌, ◌-◌, ◌*◌, ◌/◌, ◌%◌, ◌≤◌, ◌<◌, ◌≡◌, ◌≢◌, inl, inr, refl, sym, ap, ◌∙◌, true,
  false, List, [], ◌∷◌, ◌++◌, arith, ltb, leb, ◌==◌, ok, length, drop-drop, take-append-take,
  take_of_length_le, all_of_All, take, drop, sort_by, Ascending, DistinctBy, sort_by-perm,
  sort_by-Ascending_eq, All, All-perm, Bool-cases,
}
use edgecoder.Mesh.Chunks.{
  Buffer, header, chunks_from, total_chunks, encode_chunks, seq_no, sort_throws, concat_data,
  decode_sorted, decode_chunks, chunk_header_size,
}
use native.Mathlib.Nat.{native_laws}

-- The chunks from a number on have this number and the following.
module _ (payload : Buffer) (size total : ℕ) where
  chunks-seq_no-ge :
      (i j rounds : ℕ) → j ≤ i → All (λ c. j ≤ seq_no c) (chunks_from payload size total i rounds)
  unfolding chunks_from
  chunks-seq_no-ge i j zero h = tt
  chunks-seq_no-ge i j (suc rounds) h =
      (omega (arith, h), chunks-seq_no-ge (suc i) j rounds (omega (arith, h)))

  chunks-seq_no-ne :
      (i j rounds : ℕ) → j < i → All (λ c. j ≢ seq_no c) (chunks_from payload size total i rounds)
  unfolding chunks_from
  chunks-seq_no-ne i j zero h = tt
  chunks-seq_no-ne i j (suc rounds) h =
      ((λ e. omega (arith, h, e)), chunks-seq_no-ne (suc i) j rounds (omega (arith, h)))

  seq_no-header : (i : ℕ) (rest : Buffer) → seq_no (header i total ++ rest) ≡ i
  seq_no-header i rest = omega arith

  chunks-Ascending : (i rounds : ℕ) → Ascending seq_no (chunks_from payload size total i rounds)
  unfolding chunks_from
  chunks-Ascending i zero = tt
  chunks-Ascending i (suc rounds) = (
    rw (seq_no-header i (take size (drop (i * size) payload)))
        (chunks-seq_no-ge (suc i) i rounds (omega arith)),
    chunks-Ascending (suc i) rounds,
  )

  chunks-DistinctBy : (i rounds : ℕ) → DistinctBy seq_no (chunks_from payload size total i rounds)
  unfolding chunks_from
  chunks-DistinctBy i zero = tt
  chunks-DistinctBy i (suc rounds) = (
    rw (seq_no-header i (take size (drop (i * size) payload)))
        (chunks-seq_no-ne (suc i) i rounds (omega arith)),
    chunks-DistinctBy (suc i) rounds,
  )

  pub length-chunks_from :
      (i rounds : ℕ) → length (chunks_from payload size total i rounds) ≡ rounds
  unfolding chunks_from
  length-chunks_from i zero = refl
  length-chunks_from i (suc rounds) = ap suc (length-chunks_from (suc i) rounds)

  concat-chunks_from :
      (i rounds : ℕ)
      → concat_data (chunks_from payload size total i rounds)
        ≡ take (rounds * size) (drop (i * size) payload)
  unfolding chunks_from concat_data
  concat-chunks_from i zero = let n : 0 * size ≡ 0 = omega arith in rw n refl
  concat-chunks_from i (suc rounds) =
      let here = drop (i * size) payload in
      let next : drop (suc i * size) payload ≡ drop size here =
        let n : suc i * size ≡ i * size + size = omega arith in
        rw n (sym (drop-drop (i * size) size payload)) in
      let n : suc rounds * size ≡ size + rounds * size = omega arith in
      rw (concat-chunks_from (suc i) rounds, next, n) (take-append-take size (rounds * size) here)

  pub chunks-readable :
      (i rounds : ℕ) → All (λ c. leb 2 (length c) ≡ true) (chunks_from payload size total i rounds)
  unfolding chunks_from
  chunks-readable i zero = tt
  chunks-readable i (suc rounds) = (ground arith, chunks-readable (suc i) rounds)

  decode_sorted-chunks :
      (rounds : ℕ)
      → total ≡ suc rounds
      → decode_sorted (chunks_from payload size total 0 (suc rounds))
        ≡ ok (concat_data (chunks_from payload size total 0 (suc rounds)))
  unfolding decode_sorted chunks_from
  decode_sorted-chunks rounds e =
      let n = length-chunks_from 1 rounds in
      let t : total / 256 * 256 + total % 256 ≡ total = omega arith in
      let q : (suc rounds == total) ≡ true = ground arith in rw (t, n, q) refl

pub decode_nonempty :
    (ds : List Buffer)
    → 0 < length ds
    → sort_throws ds ≡ false
    → decode_chunks ds ≡ decode_sorted (sort_by seq_no ds)
unfolding decode_chunks
decode_nonempty [] h e = let no : ⊥ = omega (arith, h) in elim no [ ]
decode_nonempty (c ∷ cs) h e = rw e refl

length-perm : {A : Type 0} {xs ys : List A} → Permᴰ xs ys → length xs ≡ length ys
length-perm Permᴰ.nil = refl
length-perm (Permᴰ.cons e d) = ap suc (length-perm d)
length-perm (Permᴰ.swap e f) = refl
length-perm (Permᴰ.trans d e) = length-perm d ∙ length-perm e

abbrev pub chunk_size : ℕ → ℕ
chunk_size mtu = mtu - chunk_header_size

-- The chunks that are made where nothing is thrown.
pub encode_lem :
    (payload : Buffer) (mtu : ℕ) (cs : List Buffer)
    → encode_chunks payload mtu ≡ ok cs
    → let size = chunk_size mtu in
      let total = total_chunks payload size in
      (chunk_header_size < mtu) × (total ≤ 65535) × (chunks_from payload size total 0 total ≡ cs)
unfolding encode_chunks
encode_lem payload mtu cs h =
    let total = total_chunks payload (chunk_size mtu) in
    elim (Bool-cases (leb mtu chunk_header_size)) [
      | inl small ↦ let thrown = rw small at h in cc
      | inr big ↦ elim (Bool-cases (ltb 65535 total)) [
        | inl many ↦ let thrown = rw (big, many) at h in cc
        | inr few ↦ (ground arith, ground arith, let made = rw (big, few) at h in cc)
      ]
    ]

-- The chunks hold all of the payload.
pub total-enough :
    (payload : Buffer) (size : ℕ) → 0 < size → length payload ≤ total_chunks payload size * size
total-enough payload size pos =
    let a = length payload + (size - 1) in
    omega (arith, native_laws.lt-div-mul-add {a = a} {b = size} pos, pos)

nil_of_length : {A : Type 0} (xs : List A) → length xs ≡ 0 → xs ≡ []
nil_of_length [] h = refl
nil_of_length (x ∷ xs) h = let no : ⊥ = omega (arith, h) in elim no [ ]

decode-chunks_from :
    (payload : Buffer) (size total : ℕ) (ds : List Buffer)
    → length payload ≤ total * size
    → Permᴰ (chunks_from payload size total 0 total) ds
    → decode_chunks ds ≡ ok payload
unfolding decode_chunks chunks_from
decode-chunks_from payload size zero ds enough p =
    let none_left : payload ≡ [] = nil_of_length payload (omega (arith, enough)) in
    rw (none_left, nil_of_length ds (sym (length-perm p))) refl
decode-chunks_from payload size (suc rounds) ds enough p =
    let total = suc rounds in
    let cs = chunks_from payload size total 0 total in
    let n : length ds ≡ total =
      sym (length-perm p) ∙ length-chunks_from payload size total 0 total in
    let readable =
      all_of_All (λ c. leb 2 (length c)) ds
        (All-perm (λ c. leb 2 (length c) ≡ true) p (chunks-readable payload size total 0 total)) in
    let sorted : sort_by seq_no ds ≡ cs =
      sym (sort_by-perm seq_no p (chunks-DistinctBy payload size total 0 total))
      ∙ sort_by-Ascending_eq seq_no cs (chunks-Ascending payload size total 0 total) in
    let whole : concat_data cs ≡ payload =
      let from : drop (0 * size) payload ≡ payload =
        let z : 0 * size ≡ 0 = omega arith in rw z refl in
      concat-chunks_from payload size total 0 total
      ∙ rw from (take_of_length_le (total * size) payload enough) in
    decode_nonempty ds (omega (arith, n)) (ground arith)
    ∙ rw (sorted, decode_sorted-chunks payload size total rounds refl, whole) refl

-- What is decoded from the chunks of a payload, in any order, is the payload.
pub decode-encode :
    (payload : Buffer) (mtu : ℕ) (cs ds : List Buffer)
    → encode_chunks payload mtu ≡ ok cs
    → Permᴰ cs ds
    → decode_chunks ds ≡ ok payload
decode-encode payload mtu cs ds h p =
    let size = chunk_size mtu in
    let (big, few, made) = encode_lem payload mtu cs h in
    decode-chunks_from payload size (total_chunks payload size) ds
      (total-enough payload size (omega (arith, big))) (rw made p)
