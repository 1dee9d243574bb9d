-- ===== src/Prelude/Sorting.antt =====
-- `xs.sort((a, b) => key(a) - key(b))`: a stable sort by a number.
use Prim.Native.Nat.{ℕ, suc, ◌≤◌}
use mathlib.Core.Path.{◌≡◌, refl, sym, ap, ◌∙◌, subst}
use mathlib.Core.Logic.{◌≢◌, inl, inr}
use mathlib.Core.List.{List, [], ◌∷◌, Permᴰ}
use native.Mathlib.Omega.{arith}
use edgecoder.Prelude.Tests.{if◌then◌else◌, leb, leb→le, Bool-cases}
use edgecoder.Prelude.Lists.{All, In, here, there, In-cons, length}

module _ {ℓ} {A : Type ℓ} (key : A → ℕ) where
  unfoldable pub insert_by : A → List A → List A
  insert_by x [] = x ∷ []
  insert_by x (y ∷ ys) =
      let later = insert_by x ys in if leb (key x) (key y) then x ∷ y ∷ ys else y ∷ later

  unfoldable pub sort_by : List A → List A
  sort_by [] = []
  sort_by (x ∷ xs) = insert_by x (sort_by xs)

  -- Every key is at most the keys after it.
  abbrev pub Ascending : List A → Type ℓ
  Ascending [] = Unit
  Ascending (x ∷ xs) = All (λ y. key x ≤ key y) xs × Ascending xs

  abbrev pub DistinctBy : List A → Type ℓ
  DistinctBy [] = Unit
  DistinctBy (x ∷ xs) = All (λ y. key x ≢ key y) xs × DistinctBy xs

  insert_by_comm :
      (x y : A) (xs : List A)
      → key x ≢ key y
      → insert_by x (insert_by y xs) ≡ insert_by y (insert_by x xs)
  unfolding insert_by
  insert_by_comm x y [] h = ground arith
  insert_by_comm x y (z ∷ zs) h = ground (arith, insert_by_comm x y zs h)

module _ {ℓ κ} {A : Type ℓ} (P : A → Type κ) where
  pub All-perm : {xs ys : List A} → Permᴰ xs ys → All P xs → All P ys
  All-perm Permᴰ.nil h = tt
  All-perm (Permᴰ.cons e d) h = (rw (← e) h.0, All-perm d h.1)
  All-perm (Permᴰ.swap e f) h = (rw (← f) h.1.0, (rw (← e) h.0, h.1.1))
  All-perm (Permᴰ.trans d e) h = All-perm e (All-perm d h)

module _ {ℓ} {A : Type ℓ} (key : A → ℕ) where
  DistinctBy-perm : {xs ys : List A} → Permᴰ xs ys → DistinctBy key xs → DistinctBy key ys
  DistinctBy-perm Permᴰ.nil h = tt
  DistinctBy-perm (Permᴰ.cons {b = b} e d) h =
      (All-perm (λ y. key b ≢ key y) d (rw (← e) h.0), DistinctBy-perm d h.1)
  DistinctBy-perm (Permᴰ.swap {a} {b} {l = l} e f) h =
      let apart : key b ≢ key a = λ k. h.0.0 (sym k) in
      (
        (rw (← e, ← f) apart, subst (λ c. All (λ y. key c ≢ key y) l) f h.1.0),
        (subst (λ c. All (λ y. key c ≢ key y) l) e h.0.1, h.1.1),
      )
  DistinctBy-perm (Permᴰ.trans d e) h = DistinctBy-perm e (DistinctBy-perm d h)

  -- Sorting by keys that are distinct forgets the order that the list had.
  pub sort_by-perm :
      {xs ys : List A} → Permᴰ xs ys → DistinctBy key xs → sort_by key xs ≡ sort_by key ys
  unfolding sort_by
  sort_by-perm Permᴰ.nil h = refl
  sort_by-perm (Permᴰ.cons {b = b} e d) h = rw (e, sort_by-perm d h.1) refl
  sort_by-perm (Permᴰ.swap {a} {b} {l = l} e f) h =
      rw (← e, ← f) (insert_by_comm key a b (sort_by key l) h.0.0)
  sort_by-perm (Permᴰ.trans d e) h = sort_by-perm d h ∙ sort_by-perm e (DistinctBy-perm d h)

  pub sort_by-Ascending_eq : (xs : List A) → Ascending key xs → sort_by key xs ≡ xs
  unfolding sort_by insert_by
  sort_by-Ascending_eq [] h = refl
  sort_by-Ascending_eq (x ∷ []) h = refl
  sort_by-Ascending_eq (x ∷ y ∷ ys) h = rw (sort_by-Ascending_eq (y ∷ ys) h.1) (ground arith)

  length-insert_by : (x : A) (xs : List A) → length (insert_by key x xs) ≡ suc (length xs)
  unfolding insert_by
  length-insert_by x [] = refl
  length-insert_by x (y ∷ ys) = ground (arith, length-insert_by x ys)

  pub length-sort_by : (xs : List A) → length (sort_by key xs) ≡ length xs
  unfolding sort_by
  length-sort_by [] = refl
  length-sort_by (x ∷ xs) = length-insert_by x (sort_by key xs) ∙ ap suc (length-sort_by xs)

  In-of_insert_by : {a : A} (x : A) (xs : List A) → In a (insert_by key x xs) → In a (x ∷ xs)
  unfolding insert_by
  In-of_insert_by x [] m = m
  In-of_insert_by x (y ∷ ys) m = elim (Bool-cases (leb (key x) (key y))) [
    | inl e ↦ rw e at m
    | inr e ↦ elim (In-cons (rw e at m)) [
      | inl h ↦ there (rw h here)
      | inr n ↦ elim (In-cons (In-of_insert_by x ys n)) [
        | inl h ↦ rw h here
        | inr k ↦ there (there k)
      ]
    ]
  ]

  pub In-of_sort_by : {a : A} (xs : List A) → In a (sort_by key xs) → In a xs
  unfolding sort_by
  In-of_sort_by [] m = m
  In-of_sort_by (x ∷ xs) m = elim (In-cons (In-of_insert_by x (sort_by key xs) m)) [
    | inl h ↦ rw h here
    | inr n ↦ there (In-of_sort_by xs n)
  ]

  All-insert_by {κ} :
      (P : A → Type κ) (x : A) (xs : List A) → P x → All P xs → All P (insert_by key x xs)
  unfolding insert_by
  All-insert_by P x [] p h = (p, tt)
  All-insert_by P x (y ∷ ys) p h = ground (arith, All-insert_by P x ys p h.1)

  pub All-sort_by {κ} : (P : A → Type κ) (xs : List A) → All P xs → All P (sort_by key xs)
  unfolding sort_by
  All-sort_by P [] h = tt
  All-sort_by P (x ∷ xs) h = All-insert_by P x (sort_by key xs) h.0 (All-sort_by P xs h.1)

  All-ge : (m n : ℕ) (xs : List A) → n ≤ m → All (λ z. m ≤ key z) xs → All (λ z. n ≤ key z) xs
  All-ge m n [] le h = tt
  All-ge m n (x ∷ xs) le h = (omega (arith, le, h.0), All-ge m n xs le h.1)

  insert_by-Ascending :
      (x : A) (xs : List A) → Ascending key xs → Ascending key (insert_by key x xs)
  unfolding insert_by
  insert_by-Ascending x [] h = (tt, tt)
  insert_by-Ascending x (y ∷ ys) h = elim (Bool-cases (leb (key x) (key y))) [
    | inl e ↦ rw e ((ground arith, All-ge (key y) (key x) ys (leb→le (key x) (key y) e) h.0), h)
    | inr e ↦
        rw e
          (All-insert_by (λ z. key y ≤ key z) x ys (ground arith) h.0, insert_by-Ascending x ys h.1)
  ]

  pub sort_by-Ascending : (xs : List A) → Ascending key (sort_by key xs)
  unfolding sort_by
  sort_by-Ascending [] = tt
  sort_by-Ascending (x ∷ xs) = insert_by-Ascending x (sort_by key xs) (sort_by-Ascending xs)
