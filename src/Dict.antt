-- ===== src/Dict.antt =====
-- Go's `map[string]V`. An entry list in any order: Go leaves the order of iteration open, and the
-- theorems hold for every list.
pub mod Each
use claude_bridge.Base.{
  length, ap, suc, ◌≡◌, refl, ◌∙◌, ◌≢◌, ◌⊎◌, inl, inr, Bool, ◌||◌, false, Option, none, some, List,
  [], ◌∷◌, arith, if◌then◌else◌, Bool-cases,
}
use mathlib.Core.Option
use claude_bridge.Text.{Str, ◌==◌, eq→≡, eq_iff, eq_refl}

abbrev pub Dict {ℓ} : Type ℓ → Type ℓ
Dict V = List (Str × V)

module _ {ℓ} {V : Type ℓ} where
  -- _, ok := m[k]
  unfoldable pub keys_at : Str → Dict V → Bool
  keys_at k [] = false
  keys_at k ((j, v) ∷ m) = j == k || keys_at k m

  -- v, ok := m[k]
  unfoldable pub lookup : Str → Dict V → Option V
  lookup k [] = none
  lookup k ((j, v) ∷ m) = let older = lookup k m in if j == k then some v else older

  -- m[k] = v
  unfoldable pub insert : Str → V → Dict V → Dict V
  insert k v [] = (k, v) ∷ []
  insert k v ((j, w) ∷ m) = let rest = insert k v m in if j == k then (j, v) ∷ m else (j, w) ∷ rest

  -- delete(m, k)
  unfoldable pub delete : Str → Dict V → Dict V
  delete k [] = []
  delete k ((j, v) ∷ m) = let rest = delete k m in if j == k then rest else (j, v) ∷ rest

  -- What a write changes.
  pub lookup-insert :
      (k j : Str) (v : V) (m : Dict V)
      → lookup j (insert k v m) ≡ (if k == j then some v else lookup j m)
  unfolding insert lookup
  lookup-insert k j v [] = refl
  lookup-insert k j v ((i, w) ∷ rest) =
      let same = lookup-insert k j v rest in
      ground (arith, same, eq_iff i j, eq_iff i k, eq_iff k j)

  pub lookup-delete :
      (k j : Str) (m : Dict V) → lookup j (delete k m) ≡ (if k == j then none else lookup j m)
  unfolding lookup delete
  lookup-delete k j [] = ground arith
  lookup-delete k j ((i, v) ∷ m) =
      ground (arith, lookup-delete k j m, eq_iff i k, eq_iff i j, eq_iff k j)

  pub lookup-insert_self : (k : Str) (v : V) (m : Dict V) → lookup k (insert k v m) ≡ some v
  lookup-insert_self k v m = simp (lookup-insert, eq_refl)

  pub lookup-delete_self : (k : Str) (m : Dict V) → lookup k (delete k m) ≡ none
  lookup-delete_self k m = simp (lookup-delete, eq_refl)

  -- The value at a key is changed in place, through the pointer that the map holds.
  unfoldable pub modify : Str → (V → V) → Dict V → Dict V
  modify k f [] = []
  modify k f ((j, v) ∷ m) = (j, if j == k then f v else v) ∷ modify k f m

  -- The entries whose value passes a test.
  unfoldable pub retain : (V → Bool) → Dict V → Dict V
  retain p [] = []
  retain p ((k, v) ∷ m) = let rest = retain p m in if p v then (k, v) ∷ rest else rest

  -- A Go map holds a key once.
  abbrev pub IsUnique : Dict V → Type 0
  IsUnique [] = Unit
  IsUnique ((k, v) ∷ m) = (keys_at k m ≡ false) × IsUnique m

  pub keys_at-insert :
      (k j : Str) (v : V) (m : Dict V) → keys_at j (insert k v m) ≡ (k == j || keys_at j m)
  unfolding keys_at insert
  keys_at-insert k j v [] = refl
  keys_at-insert k j v ((i, w) ∷ m) =
      ground (arith, eq_iff k j, eq_iff i k, eq_iff i j, keys_at-insert k j v m)

  keys_at-delete : (k j : Str) (m : Dict V) → keys_at j m ≡ false → keys_at j (delete k m) ≡ false
  unfolding keys_at delete
  keys_at-delete k j [] h = h
  keys_at-delete k j ((i, w) ∷ m) h = ground (arith, keys_at-delete k j m)

  pub keys_at-delete_ne :
      (k j : Str) (m : Dict V) → k == j ≡ false → keys_at j (delete k m) ≡ keys_at j m
  unfolding keys_at delete
  keys_at-delete_ne k j [] h = refl
  keys_at-delete_ne k j ((i, w) ∷ m) h =
      ground (arith, keys_at-delete_ne k j m h, eq_iff i k, eq_iff i j, eq_iff k j)

  keys_at-retain :
      (p : V → Bool) (j : Str) (m : Dict V) → keys_at j m ≡ false → keys_at j (retain p m) ≡ false
  unfolding keys_at retain
  keys_at-retain p j [] h = h
  keys_at-retain p j ((i, w) ∷ m) h = ground (arith, keys_at-retain p j m)

  pub lookup-keys_at : (k : Str) (m : Dict V) → keys_at k m ≡ false → lookup k m ≡ none
  unfolding keys_at lookup
  lookup-keys_at k [] h = refl
  lookup-keys_at k ((i, w) ∷ m) h = ground (arith, lookup-keys_at k m)

  pub insert-IsUnique : (k : Str) (v : V) (m : Dict V) → IsUnique m → IsUnique (insert k v m)
  unfolding insert keys_at
  insert-IsUnique k v [] u = (refl, tt)
  insert-IsUnique k v ((i, w) ∷ m) u =
      ground (arith, eq_iff i k, eq_iff k i, insert-IsUnique k v m u.1, keys_at-insert k i v m)

  pub delete-IsUnique : (k : Str) (m : Dict V) → IsUnique m → IsUnique (delete k m)
  unfolding delete
  delete-IsUnique k [] u = tt
  delete-IsUnique k ((i, w) ∷ m) u = ground (arith, delete-IsUnique k m u.1, keys_at-delete k i m)

  pub retain-IsUnique : (p : V → Bool) (m : Dict V) → IsUnique m → IsUnique (retain p m)
  unfolding retain
  retain-IsUnique p [] u = tt
  retain-IsUnique p ((i, w) ∷ m) u = ground (arith, retain-IsUnique p m u.1, keys_at-retain p i m)

  abbrev pub keep : (V → Bool) → Option V → Option V
  keep p none = none
  keep p (some v) = if p v then some v else none

  pub lookup-retain :
      (p : V → Bool) (k : Str) (m : Dict V)
      → IsUnique m
      → lookup k (retain p m) ≡ keep p (lookup k m)
  unfolding lookup retain
  lookup-retain p k [] u = refl
  lookup-retain p k ((i, w) ∷ m) u = elim (Bool-cases (i == k)) [
    | inl e ↦ ground (arith, eq_iff i k, lookup-retain p k m u.1, lookup-keys_at i m)
    | inr e ↦ ground (arith, eq_iff i k, lookup-retain p k m u.1)
  ]

  pub lookup-modify :
      (k j : Str) (f : V → V) (m : Dict V)
      → lookup j (modify k f m) ≡ (if k == j then Option.map f (lookup j m) else lookup j m)
  unfolding lookup modify
  lookup-modify k j f [] = ground arith
  lookup-modify k j f ((i, w) ∷ m) =
      ground (arith, eq_iff i k, eq_iff i j, eq_iff k j, lookup-modify k j f m)

  pub lookup-modify_self :
      (k : Str) (f : V → V) (m : Dict V) → lookup k (modify k f m) ≡ Option.map f (lookup k m)
  lookup-modify_self k f m = simp (lookup-modify, eq_refl)

  pub keys_at-modify : (k j : Str) (f : V → V) (m : Dict V) → keys_at j (modify k f m) ≡ keys_at j m
  unfolding keys_at modify
  keys_at-modify k j f [] = refl
  keys_at-modify k j f ((i, w) ∷ m) = cc (keys_at-modify k j f m)

  pub modify-IsUnique : (k : Str) (f : V → V) (m : Dict V) → IsUnique m → IsUnique (modify k f m)
  unfolding modify
  modify-IsUnique k f [] u = tt
  modify-IsUnique k f ((i, w) ∷ m) u = (keys_at-modify k i f m ∙ u.0, modify-IsUnique k f m u.1)

  pub lookup-delete-some :
      (k j : Str) (m : Dict V) {v : V}
      → lookup j (delete k m) ≡ some v
      → (k ≢ j) × (lookup j m ≡ some v)
  lookup-delete-some k j m h =
      (λ e. ground (arith, lookup-delete k j m, eq_iff k j), ground (arith, lookup-delete k j m))

  pub lookup-delete_ne : (k j : Str) (m : Dict V) → k ≢ j → lookup j (delete k m) ≡ lookup j m
  lookup-delete_ne k j m h = ground (arith, lookup-delete k j m, eq_iff k j)

  pub lookup-insert_ne :
      (k j : Str) (v : V) (m : Dict V) → k ≢ j → lookup j (insert k v m) ≡ lookup j m
  lookup-insert_ne k j v m h = ground (arith, lookup-insert k j v m, eq_iff k j)

  pub lookup-insert-some :
      (k j : Str) (v : V) (m : Dict V) {x : V}
      → lookup j (insert k v m) ≡ some x
      → ((k ≡ j) × (v ≡ x)) ⊎ ((k ≢ j) × (lookup j m ≡ some x))
  lookup-insert-some k j v m h = elim (Bool-cases (k == j)) [
    | inl e ↦ inl (eq→≡ k j e, ground (arith, lookup-insert k j v m))
    | inr e ↦ inr (λ p. ground (arith, eq_iff k j), ground (arith, lookup-insert k j v m))
  ]

  pub length-modify : (k : Str) (f : V → V) (m : Dict V) → length (modify k f m) ≡ length m
  unfolding modify
  length-modify k f [] = refl
  length-modify k f ((i, w) ∷ m) = ap suc (length-modify k f m)
