-- ===== src/Text/Order.antt =====
-- `a > b` on strings: bytewise lexicographic order.
use claude_bridge.Base.{◌≡◌, refl, Bool, true, false, [], ◌∷◌, arith, ltb, nat_eq, if◌then◌else◌}
use claude_bridge.Text.{Str}

unfoldable pub gtb : Str → Str → Bool
gtb [] ys = false
gtb (x ∷ xs) [] = true
gtb (x ∷ xs) (y ∷ ys) = let rest = gtb xs ys in if nat_eq x y then rest else ltb y x

-- The order is asymmetric.
pub gtb_asym : (a b : Str) → gtb a b ≡ true → gtb b a ≡ false
unfolding gtb
gtb_asym [] b h = cc
gtb_asym (x ∷ xs) [] h = refl
gtb_asym (x ∷ xs) (y ∷ ys) h = ground (arith, gtb_asym xs ys)

-- Two strings neither of which is greater are one string.
pub gtb_connex : (a b : Str) → gtb a b ≡ false → gtb b a ≡ false → a ≡ b
unfolding gtb
gtb_connex [] [] h k = refl
gtb_connex [] (y ∷ ys) h k = cc
gtb_connex (x ∷ xs) [] h k = cc
gtb_connex (x ∷ xs) (y ∷ ys) h k = ground (arith, gtb_connex xs ys)
