-- ===== src/Text.antt =====
-- Go strings: sequences of bytes. What the source uses of the packages `strings` and
-- `path/filepath` stands in the children, for ASCII text.
pub mod Order
pub mod Words
pub mod Trim
pub mod Lines
pub mod Clean
pub mod Decimal
pub mod FilePath
use Prim.Native.Char.{code}
use Prim.Native.String.{String}
use claude_bridge.Base.{
  ℕ, zero, suc, ◌≡◌, ◌≢◌, refl, ◌↔◌, Bool, true, false, ◌&&◌, List, [], ◌∷◌, ap, arith, nat_eq,
}

abbrev pub Str : Type 0
Str = List ℕ

-- The bytes of an ASCII literal.
abbrev pub text : String → Str
text String.[] = []
text (String.◌∷◌ c s) = code c ∷ text s

infix 50 ◌==◌
-- `a == b` on strings.
unfoldable pub ◌==◌ : Str → Str → Bool
[] == [] = true
[] == (y ∷ ys) = false
(x ∷ xs) == [] = false
(x ∷ xs) == (y ∷ ys) = nat_eq x y && xs == ys

pub eq→≡ : (a b : Str) → (a == b) ≡ true → a ≡ b
unfolding ◌==◌
eq→≡ [] [] h = refl
eq→≡ [] (y ∷ ys) h = cc
eq→≡ (x ∷ xs) [] h = cc
eq→≡ (x ∷ xs) (y ∷ ys) h = ground (arith, eq→≡ xs ys)

pub eq_refl : (a : Str) → (a == a) ≡ true
unfolding ◌==◌
eq_refl [] = refl
eq_refl (x ∷ xs) = ground (arith, eq_refl xs)

pub ≡→eq : (a b : Str) → a ≡ b → (a == b) ≡ true
≡→eq a b h = subst-eq
  where
    subst-eq : (a == b) ≡ true
    subst-eq = cc (eq_refl a, ap (λ c. a == c) h)

-- The form that the tactics are given at each pair of strings that is compared.
pub eq_iff : (a b : Str) → ((a == b) ≡ true) ↔ (a ≡ b)
eq_iff a b = (eq→≡ a b, ≡→eq a b)

-- `s != ""`.
abbrev pub nonempty : Str → Bool
nonempty [] = false
nonempty (x ∷ xs) = true

pub ≢-eq_false : (a b : Str) → (a == b) ≡ false → a ≢ b
≢-eq_false a b f e = ground (arith, ≡→eq a b)
