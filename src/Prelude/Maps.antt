-- ===== src/Prelude/Maps.antt =====
-- A `Map` keyed by identifiers, as the list of its entries in insertion order. A key that is set
-- again keeps its place; a deleted key leaves, and a `Map` holds no key twice.
use Prim.Native.Nat.{ℕ, ◌+◌}
use mathlib.Core.Path.{◌≡◌, refl}
use mathlib.Core.Logic.{◌≢◌, inl, inr}
use mathlib.Core.Bool.{Bool}
use mathlib.Core.Option.{Option, none, some}
use mathlib.Core.List.{List, [], ◌∷◌}
use native.Mathlib.Omega.{arith}
use edgecoder.Prelude.Tests.{if◌then◌else◌, ◌==◌, is_some, Bool-cases}
use edgecoder.Prelude.Lists.{In, here, there, In-cons}

abbrev pub Dict {ℓ} : Type ℓ → Type ℓ
Dict V = List (ℕ × V)

module _ {ℓ} {V : Type ℓ} where
  abbrev pub lookup : ℕ → Dict V → Option V
  lookup k [] = none
  lookup k ((j, v) ∷ d) = if j == k then some v else lookup k d

  -- `d.has(k)`
  abbrev pub has : ℕ → Dict V → Bool
  has k d = is_some (lookup k d)

  -- `d.set(k, v)`
  abbrev pub insert : ℕ → V → Dict V → Dict V
  insert k v [] = (k, v) ∷ []
  insert k v ((j, w) ∷ d) = if j == k then (k, v) ∷ d else (j, w) ∷ insert k v d

  -- `d.delete(k)`
  abbrev pub erase : ℕ → Dict V → Dict V
  erase k [] = []
  erase k ((j, w) ∷ d) = let rest = erase k d in if j == k then rest else (j, w) ∷ rest

  -- `[...d.values()]`
  abbrev pub values : Dict V → List V
  values [] = []
  values ((j, v) ∷ d) = v ∷ values d

  pub lookup-insert :
      (k j : ℕ) (v : V) (d : Dict V)
      → lookup j (insert k v d) ≡ (if k == j then some v else lookup j d)
  lookup-insert k j v [] = refl
  lookup-insert k j v ((i, w) ∷ d) = ground (arith, lookup-insert k j v d)

  pub lookup-erase :
      (k j : ℕ) (d : Dict V) → lookup j (erase k d) ≡ (if k == j then none else lookup j d)
  lookup-erase k j [] = ground arith
  lookup-erase k j ((i, w) ∷ d) = ground (arith, lookup-erase k j d)

  pub lookup-insert_self : (k : ℕ) (v : V) (d : Dict V) → lookup k (insert k v d) ≡ some v
  lookup-insert_self k v d = ground (arith, lookup-insert k k v d)

  pub lookup-insert_ne :
      (k j : ℕ) (v : V) (d : Dict V) → k ≢ j → lookup j (insert k v d) ≡ lookup j d
  lookup-insert_ne k j v d h = ground (arith, lookup-insert k j v d)

module _ {ℓ κ} {V : Type ℓ} (P : ℕ → V → Type κ) where
  -- Every entry satisfies the predicate.
  abbrev pub Entries : Dict V → Type κ
  Entries [] = Unit
  Entries ((k, v) ∷ d) = P k v × Entries d

  pub Entries-insert : (k : ℕ) (v : V) (d : Dict V) → Entries d → P k v → Entries (insert k v d)
  Entries-insert k v [] h p = (p, tt)
  Entries-insert k v ((j, w) ∷ d) h p = ground (arith, Entries-insert k v d h.1 p)

  pub Entries-erase : (k : ℕ) (d : Dict V) → Entries d → Entries (erase k d)
  Entries-erase k [] h = tt
  Entries-erase k ((j, w) ∷ d) h = ground (arith, Entries-erase k d h.1)

  pub Entries-lookup : (k : ℕ) (v : V) (d : Dict V) → Entries d → lookup k d ≡ some v → P k v
  Entries-lookup k v [] h e = cc
  Entries-lookup k v ((j, w) ∷ d) h e = ground (arith, Entries-lookup k v d h.1)

module _ {ℓ} {V : Type ℓ} (f : V → ℕ) where
  -- The sum over all entries.
  abbrev pub sum_values : Dict V → ℕ
  sum_values [] = 0
  sum_values ((k, v) ∷ d) = f v + sum_values d

  pub sum_values-insert :
      (k : ℕ) (v old : V) (d : Dict V)
      → lookup k d ≡ some old
      → sum_values (insert k v d) + f old ≡ sum_values d + f v
  sum_values-insert k v old [] e = cc
  sum_values-insert k v old ((j, w) ∷ d) e = ground (arith, sum_values-insert k v old d)

  pub sum_values-insert_new :
      (k : ℕ) (v : V) (d : Dict V)
      → lookup k d ≡ none
      → sum_values (insert k v d) ≡ sum_values d + f v
  sum_values-insert_new k v [] e = omega arith
  sum_values-insert_new k v ((j, w) ∷ d) e = ground (arith, sum_values-insert_new k v d)

module _ {ℓ} {V : Type ℓ} where
  -- No key twice, as in every `Map`.
  abbrev pub DistinctKeys : Dict V → Type ℓ
  DistinctKeys [] = Unit
  DistinctKeys ((k, v) ∷ d) = (lookup k d ≡ none) × DistinctKeys d

  pub insert-DistinctKeys :
      (k : ℕ) (v : V) (d : Dict V) → DistinctKeys d → DistinctKeys (insert k v d)
  insert-DistinctKeys k v [] h = (refl, tt)
  insert-DistinctKeys k v ((j, w) ∷ d) h =
      ground (arith, insert-DistinctKeys k v d h.1, lookup-insert k j v d)

module _ {ℓ} {V : Type ℓ} where
  pub erase-DistinctKeys : (k : ℕ) (d : Dict V) → DistinctKeys d → DistinctKeys (erase k d)
  erase-DistinctKeys k [] h = tt
  erase-DistinctKeys k ((j, w) ∷ d) h =
      ground (arith, erase-DistinctKeys k d h.1, lookup-erase k j d)

  pub lookup_of_In :
      (k : ℕ) (v : V) (d : Dict V) → DistinctKeys d → In (k, v) d → lookup k d ≡ some v
  lookup_of_In k v [] h m = elim m [ ]
  lookup_of_In k v ((j, w) ∷ d) h m = elim (In-cons m) [
    | inl e ↦ ground arith
    | inr n ↦ ground (arith, lookup_of_In k v d h.1 n)
  ]

  pub In-of_lookup : (k : ℕ) (v : V) (d : Dict V) → lookup k d ≡ some v → In (k, v) d
  In-of_lookup k v [] e = cc
  In-of_lookup k v ((j, w) ∷ d) e = elim (Bool-cases (j == k)) [
    | inl same ↦ let p : ◌≡◌ {A = ℕ × V} (k, v) (j, w) = ground arith in rw p here
    | inr other ↦ there (In-of_lookup k v d (ground arith))
  ]
