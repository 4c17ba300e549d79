-- ===== src/Text/Decimal.antt =====
-- `strconv.Itoa` of a natural number, and `strconv.Atoi` on 64 bits.
pub mod Reading
use claude_bridge.Base.{
  ℕ, zero, suc, ◌+◌, ◌-◌, ◌*◌, ◌/◌, ◌%◌, ◌^◌, Bool, ◌&&◌, Option, none, some, List, [], ◌∷◌, ◌++◌,
  leb, ltb, nat_eq, if◌then◌else◌,
}
use claude_bridge.Base.Int.{ℤ, pos, negsuc}
use claude_bridge.Text.{Str}

-- The fuel bounds the number of digits.
unfoldable pub digits : ℕ → ℕ → Str
digits zero n = []
digits (suc fuel) n =
    let higher = digits fuel (n / 10) in
    if ltb n 10 then (n + b'0') ∷ [] else higher ++ (n % 10 + b'0') ∷ []

abbrev pub itoa : ℕ → Str
itoa n = digits (suc n) n

abbrev pub is_digit : ℕ → Bool
is_digit c = leb b'0' c && leb c b'9'

unfoldable pub read_digits : ℕ → Str → Option ℕ
read_digits acc [] = some acc
read_digits acc (c ∷ s) =
    let rest = read_digits (acc * 10 + (c - b'0')) s in if is_digit c then rest else none

abbrev unsigned : Str → Option ℕ
unsigned [] = none
unsigned (c ∷ s) = read_digits 0 (c ∷ s)

abbrev negated : ℕ → ℤ
negated zero = pos 0
negated (suc n) = negsuc n

-- An optional sign, digits, and a value of 64 bits.
unfoldable pub atoi : Str → Option ℤ
unfolding read_digits
atoi [] = none
atoi (c ∷ s) =
    if nat_eq c b'-'
    then elim (unsigned s) [
      | none ↦ none
      | some n ↦ if leb n (2 ^ 63) then some (negated n) else none
    ]
    else elim (if nat_eq c b'+' then unsigned s else unsigned (c ∷ s)) [
      | none ↦ none
      | some n ↦ if ltb n (2 ^ 63) then some (pos n) else none
    ]
