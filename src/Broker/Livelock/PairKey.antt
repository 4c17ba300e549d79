-- ===== src/Broker/Livelock/PairKey.antt =====
-- The key of a session pair: the same both ways, and different for different pairs.
use claude_bridge.Base.{◌↔◌, ◌≡◌, ◌≢◌, refl, ◌⊎◌, inl, inr, [], ◌∷◌, ◌++◌, arith, All, Bool-cases}
use claude_bridge.Text.{Str}
use claude_bridge.Text.Order.{gtb, gtb_asym, gtb_connex}
use claude_bridge.Broker.Livelock.{pair_key}

-- A string with no NUL byte, as the identifiers that `newID` returns.
abbrev pub IsNulFree : Str → Type 0
IsNulFree s = All (λ c. c ≢ 0) s

pair_key_comm : (a b : Str) → pair_key a b ≡ pair_key b a
unfolding pair_key
pair_key_comm a b = elim (Bool-cases (gtb a b)) [
  | inl e ↦ rw (e, gtb_asym a b e)
  | inr e ↦ elim (Bool-cases (gtb b a)) [ inl f ↦ rw (e, f) | inr f ↦ rw (gtb_connex a b e f) ]
]

split_at_nul :
    (a b c d : Str) → IsNulFree a → IsNulFree c → a ++ 0 ∷ b ≡ c ++ 0 ∷ d → (a ≡ c) × (b ≡ d)
split_at_nul [] b [] d h k e = (refl, cc)
split_at_nul [] b (x ∷ c) d h k e = absurd (k.0 (cc))
split_at_nul (x ∷ a) b [] d h k e = absurd (h.0 (cc))
split_at_nul (x ∷ a) b (y ∷ c) d h k e =
    let p = split_at_nul a b c d h.1 k.1 (cc) in (cc (p.0), p.1)

abbrev pub SamePair : Str → Str → Str → Str → Type 0
SamePair a b c d = ((a ≡ c) × (b ≡ d)) ⊎ ((a ≡ d) × (b ≡ c))

pair_key-injective :
    (a b c d : Str)
    → IsNulFree a
    → IsNulFree b
    → IsNulFree c
    → IsNulFree d
    → pair_key a b ≡ pair_key c d
    → SamePair a b c d
unfolding pair_key
pair_key-injective a b c d ha hb hc hd e = ground (
  arith,
  split_at_nul a b c d ha hc,
  split_at_nul b a c d hb hc,
  split_at_nul a b d c ha hd,
  split_at_nul b a d c hb hd,
)

-- For identifiers without NUL bytes, two messages share a key exactly if they go between the same
-- two sessions, in either direction.
pub pair_key_sound :
    (a b c d : Str)
    → IsNulFree a
    → IsNulFree b
    → IsNulFree c
    → IsNulFree d
    → (pair_key a b ≡ pair_key c d) ↔ SamePair a b c d
pair_key_sound a b c d ha hb hc hd = (pair_key-injective a b c d ha hb hc hd, same)
  where
    same : SamePair a b c d → pair_key a b ≡ pair_key c d
    same (inl (e, f)) = cc
    same (inr (e, f)) = cc (pair_key_comm a b)
