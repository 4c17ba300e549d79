-- ===== src/Dict/Each.antt =====
-- Predicates on the values of a map.
use mathlib.Core.Option.{some-injective}
use claude_bridge.Base.{
  [], ◌∷◌, ◌≡◌, sym, subst, ◌∙◌, ◌⊎◌, inl, inr, some, arith, Bool-cases, Option-cases,
}
use claude_bridge.Text.{Str, ◌==◌}
use claude_bridge.Dict.{
  Dict, lookup, insert, delete, modify, lookup-insert-some, lookup-delete-some, lookup-modify,
}

module _ {ℓ} {V : Type ℓ} where
  abbrev pub Each {κ} : (V → Type κ) → Dict V → Type (ℓ ⊔ κ)
  Each P m = (k : Str) (v : V) → lookup k m ≡ some v → P v

  pub Each-nil {κ} : (P : V → Type κ) → Each P []
  unfolding lookup
  Each-nil P k v e = cc

  pub Each-cons {κ} :
      (P : V → Type κ) (k : Str) (v : V) (m : Dict V) → P v → Each P m → Each P ((k, v) ∷ m)
  unfolding lookup
  Each-cons P k v m p h j x e = elim (Bool-cases (k == j)) [
    | inl same ↦ subst P (some-injective v x (rw same at e)) p
    | inr other ↦ h j x (rw other at e)
  ]

  pub Each-insert {κ} :
      (P : V → Type κ) (k : Str) (v : V) (m : Dict V) → P v → Each P m → Each P (insert k v m)
  Each-insert P k v m p h j x e = elim (lookup-insert-some k j v m e) [
    | inl (f, g) ↦ subst P g p
    | inr (f, g) ↦ h j x g
  ]

  pub Each-delete {κ} : (P : V → Type κ) (k : Str) (m : Dict V) → Each P m → Each P (delete k m)
  Each-delete P k m h j x e = h j x (lookup-delete-some k j m e).1

  -- A value after a change in place is a value before, changed or not.
  pub lookup-modify-some :
      (k j : Str) (f : V → V) (m : Dict V) (x : V)
      → lookup j (modify k f m) ≡ some x
      → (v : V) × (lookup j m ≡ some v) × ((x ≡ f v) ⊎ (x ≡ v))
  lookup-modify-some k j f m x e =
      let e' = sym (lookup-modify k j f m) ∙ e in
      elim (Option-cases (lookup j m)) [
        | inl n ↦ absurd (ground (arith, e', n))
        | inr (v, s) ↦ (
          v,
          s,
          elim (Bool-cases (k == j)) [
            | inl t ↦ inl (ground (arith, e', s))
            | inr t ↦ inr (ground (arith, e', s))
          ],
        )
      ]

  pub Each-modify {κ} :
      (P : V → Type κ) (k : Str) (f : V → V) (m : Dict V)
      → ((v : V) → P v → P (f v))
      → Each P m
      → Each P (modify k f m)
  Each-modify P k f m keep h j x e =
      let (v, s, c) = lookup-modify-some k j f m x e in
      elim c [ inl q ↦ subst P (sym q) (keep v (h j v s)) | inr q ↦ subst P (sym q) (h j v s) ]
