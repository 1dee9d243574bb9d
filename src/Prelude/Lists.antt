-- ===== src/Prelude/Lists.antt =====
-- Lists: measures in native numbers, searches by a Boolean test, and predicates by recursion.
use Prim.Native.Nat.{ℕ, zero, suc, ◌+◌, ◌≤◌}
use mathlib.Core.Path.{◌≡◌, refl, sym, ap, ◌∙◌}
use mathlib.Core.Logic.{◌⊎◌, inl, inr}
use mathlib.Core.Bool.{Bool, true, false, ◌&&◌, ◌||◌}
use mathlib.Core.Option.{Option, none, some, some-injective}
use mathlib.Core.List.{List, [], ◌∷◌, ◌++◌}
use native.Mathlib.Omega.{arith}
use edgecoder.Prelude.Tests.{if◌then◌else◌, ◌==◌, Bool-cases}

module _ {ℓ} {A : Type ℓ} where
  abbrev pub length : List A → ℕ
  length [] = 0
  length (x ∷ xs) = suc (length xs)

  abbrev pub take : ℕ → List A → List A
  take zero xs = []
  take (suc n) [] = []
  take (suc n) (x ∷ xs) = x ∷ take n xs

  abbrev pub drop : ℕ → List A → List A
  drop zero xs = xs
  drop (suc n) [] = []
  drop (suc n) (x ∷ xs) = drop n xs

  -- `xs.filter(p)`, `xs.find(p)`, `xs.some(p)`, `xs.every(p)`
  abbrev pub filter : (A → Bool) → List A → List A
  filter p [] = []
  filter p (x ∷ xs) = let rest = filter p xs in if p x then x ∷ rest else rest

  abbrev pub find : (A → Bool) → List A → Option A
  find p [] = none
  find p (x ∷ xs) = if p x then some x else find p xs

  abbrev pub any : (A → Bool) → List A → Bool
  any p [] = false
  any p (x ∷ xs) = p x || any p xs

  abbrev pub all : (A → Bool) → List A → Bool
  all p [] = true
  all p (x ∷ xs) = p x && all p xs

  abbrev pub get_elem? : List A → ℕ → Option A
  get_elem? [] i = none
  get_elem? (x ∷ xs) zero = some x
  get_elem? (x ∷ xs) (suc i) = get_elem? xs i

  -- A write out of bounds changes nothing.
  abbrev pub set : List A → ℕ → A → List A
  set [] i v = []
  set (x ∷ xs) zero v = v ∷ xs
  set (x ∷ xs) (suc i) v = x ∷ set xs i v

  -- `xs.splice(xs.findIndex(p), 1)` where there is such an index.
  abbrev pub remove_first : (A → Bool) → List A → List A
  remove_first p [] = []
  remove_first p (x ∷ xs) = if p x then xs else x ∷ remove_first p xs

  -- The elements with their places, the first of which is the number given.
  abbrev pub indexed : ℕ → List A → List (ℕ × A)
  indexed k [] = []
  indexed k (x ∷ xs) = (k, x) ∷ indexed (suc k) xs

  abbrev pub sum_by : (A → ℕ) → List A → ℕ
  sum_by f [] = 0
  sum_by f (x ∷ xs) = f x + sum_by f xs

  abbrev pub All {κ} : (A → Type κ) → List A → Type κ
  All P [] = Unit
  All P (x ∷ xs) = P x × All P xs

  -- Membership with its place kept.
  pub data In (a : A) : List A → Type ℓ where
    here : {xs : List A} → In a (a ∷ xs)
    there : {x : A} {xs : List A} → In a xs → In a (x ∷ xs)

  drop-nil : (m : ℕ) → drop m [] ≡ []
  drop-nil zero = refl
  drop-nil (suc m) = refl

  take-nil : (m : ℕ) → take m [] ≡ []
  take-nil zero = refl
  take-nil (suc m) = refl

  pub length-append : (xs ys : List A) → length (xs ++ ys) ≡ length xs + length ys
  length-append [] ys = omega arith
  length-append (x ∷ xs) ys = omega (arith, length-append xs ys)

  pub length-filter-le : (p : A → Bool) (xs : List A) → length (filter p xs) ≤ length xs
  length-filter-le p [] = omega arith
  length-filter-le p (x ∷ xs) = ground (arith, length-filter-le p xs)

  pub sum_by-append : (f : A → ℕ) (xs ys : List A) → sum_by f (xs ++ ys) ≡ sum_by f xs + sum_by f ys
  sum_by-append f [] ys = omega arith
  sum_by-append f (x ∷ xs) ys = omega (arith, sum_by-append f xs ys)

  pub drop-drop : (n m : ℕ) (xs : List A) → drop m (drop n xs) ≡ drop (n + m) xs
  drop-drop zero m xs = let n : 0 + m ≡ m = omega arith in rw n refl
  drop-drop (suc n) m [] = let e : suc n + m ≡ suc (n + m) = omega arith in rw e (drop-nil m)
  drop-drop (suc n) m (x ∷ xs) =
      let e : suc n + m ≡ suc (n + m) = omega arith in rw e (drop-drop n m xs)

  pub take-append-take : (n m : ℕ) (xs : List A) → take n xs ++ take m (drop n xs) ≡ take (n + m) xs
  take-append-take zero m xs = let n : 0 + m ≡ m = omega arith in rw n refl
  take-append-take (suc n) m [] = let e : suc n + m ≡ suc (n + m) = omega arith in rw e (take-nil m)
  take-append-take (suc n) m (x ∷ xs) =
      let e : suc n + m ≡ suc (n + m) = omega arith in rw e (ap (◌∷◌ x) (take-append-take n m xs))

  pub take_of_length_le : (n : ℕ) (xs : List A) → length xs ≤ n → take n xs ≡ xs
  take_of_length_le zero [] h = refl
  take_of_length_le zero (x ∷ xs) h = let no : ⊥ = omega (arith, h) in elim no [ ]
  take_of_length_le (suc n) [] h = refl
  take_of_length_le (suc n) (x ∷ xs) h = ap (◌∷◌ x) (take_of_length_le n xs (omega (arith, h)))

  pub length-take_le : (n : ℕ) (xs : List A) → length (take n xs) ≤ n
  length-take_le zero xs = omega arith
  length-take_le (suc n) [] = omega arith
  length-take_le (suc n) (x ∷ xs) = omega (arith, length-take_le n xs)

  pub all_of_All : (p : A → Bool) (xs : List A) → All (λ x. p x ≡ true) xs → all p xs ≡ true
  all_of_All p [] h = refl
  all_of_All p (x ∷ xs) h = rw (h.0, all_of_All p xs h.1) refl

  pub In-cons : {a x : A} {xs : List A} → In a (x ∷ xs) → (a ≡ x) ⊎ In a xs
  In-cons here = inl refl
  In-cons (there m) = inr m

  pub In-filter : {a : A} (p : A → Bool) (xs : List A) → In a xs → p a ≡ true → In a (filter p xs)
  In-filter p [] m h = elim m [ ]
  In-filter p (x ∷ xs) here h = rw h here
  In-filter p (x ∷ xs) (there m) h = elim (Bool-cases (p x)) [
    | inl e ↦ rw e (there (In-filter p xs m h))
    | inr e ↦ rw e (In-filter p xs m h)
  ]

  pub In-of_filter :
      {a : A} (p : A → Bool) (xs : List A) → In a (filter p xs) → In a xs × (p a ≡ true)
  In-of_filter p [] m = elim m [ ]
  In-of_filter {a} p (x ∷ xs) m = elim (Bool-cases (p x)) [
    | inl e ↦ elim (In-cons (rw e at m)) [
      | inl h ↦ (rw h here, rw h e)
      | inr n ↦ (there (In-of_filter p xs n).0, (In-of_filter p xs n).1)
    ]
    | inr e ↦ let r : In a xs × (p a ≡ true) = In-of_filter p xs (rw e at m) in (there r.0, r.1)
  ]

module _ {ℓ} {A : Type ℓ} (p : A → Bool) where
  pub get_elem?_of_any :
      (xs : List A) → any p xs ≡ true → (j : ℕ) × (a : A) × (get_elem? xs j ≡ some a) × (p a ≡ true)
  get_elem?_of_any [] h = cc
  get_elem?_of_any (x ∷ xs) h = elim (Bool-cases (p x)) [
    | inl e ↦ (0, x, refl, e)
    | inr e ↦ let (j, a, g, k) = get_elem?_of_any xs (rw e at h) in (suc j, a, g, k)
  ]

  pub any_of_get_elem? :
      (xs : List A) (j : ℕ) {a : A} → get_elem? xs j ≡ some a → p a ≡ true → any p xs ≡ true
  any_of_get_elem? [] j g h = cc
  any_of_get_elem? (x ∷ xs) zero g h = ground arith
  any_of_get_elem? (x ∷ xs) (suc j) g h = ground (arith, any_of_get_elem? xs j g h)

module _ {ℓ} {A : Type ℓ} where
  pub get_elem?_of_indexed :
      {i : ℕ} {a : A} (k : ℕ) (xs : List A)
      → In (i, a) (indexed k xs)
      → (j : ℕ) × (i ≡ k + j) × (get_elem? xs j ≡ some a)
  get_elem?_of_indexed k [] m = elim m [ ]
  get_elem?_of_indexed k (x ∷ xs) m = elim (In-cons m) [
    | inl h ↦ (0, ap (λ c. c.0) h ∙ omega arith, ap (λ c. some c.1) (sym h))
    | inr n ↦ let (j, e, g) = get_elem?_of_indexed (suc k) xs n in (suc j, e ∙ omega arith, g)
  ]

  pub In-indexed :
      {a : A} (k j : ℕ) (xs : List A) → get_elem? xs j ≡ some a → In (k + j, a) (indexed k xs)
  In-indexed k j [] e = cc
  In-indexed {a} k zero (x ∷ xs) e =
      let n : k + zero ≡ k = omega arith in rw (n, ← some-injective x a e) here
  In-indexed k (suc j) (x ∷ xs) e =
      let n : k + suc j ≡ suc k + j = omega arith in rw n (there (In-indexed (suc k) j xs e))

module _ {ℓ κ} {A : Type ℓ} (P : A → Type κ) where
  pub All-append : (xs ys : List A) → All P xs → All P ys → All P (xs ++ ys)
  All-append [] ys hx hy = hy
  All-append (x ∷ xs) ys hx hy = (hx.0, All-append xs ys hx.1 hy)

  pub All-In : {a : A} {xs : List A} → All P xs → In a xs → P a
  All-In h here = h.0
  All-In h (there m) = All-In h.1 m

  pub All-filter : (p : A → Bool) (xs : List A) → All P xs → All P (filter p xs)
  All-filter p [] h = tt
  All-filter p (x ∷ xs) h = ground (arith, All-filter p xs h.1)

-- `xs.includes(k)`
abbrev pub contains : ℕ → List ℕ → Bool
contains k [] = false
contains k (x ∷ xs) = x == k || contains k xs
