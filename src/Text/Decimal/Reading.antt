-- ===== src/Text/Decimal/Reading.antt =====
-- A number is read back from its digits.
use mathlib.Core.List.{append-nil, append_assoc}
use claude_bridge.Base.{
  ℕ, zero, suc, ◌+◌, ◌-◌, ◌*◌, ◌/◌, ◌%◌, ◌^◌, ◌<◌, ◌≡◌, refl, sym, ap, ◌∙◌, inl, inr, true, some,
  [], ◌∷◌, ◌++◌, arith, ltb, Bool-cases, All, All-append,
}
use claude_bridge.Base.Int.{pos}
use claude_bridge.Text.{Str, nonempty}
use claude_bridge.Text.Words.{is_space}
use claude_bridge.Text.Trim.{trim_left, trim_right, trim_space}
use claude_bridge.Text.Decimal.{digits, itoa, is_digit, read_digits, atoi}

read_digits-digits :
    (fuel n : ℕ) (s : Str) → n < fuel → read_digits 0 (digits fuel n ++ s) ≡ read_digits n s
unfolding digits read_digits
read_digits-digits zero n s h = absurd (omega arith)
read_digits-digits (suc fuel) n s h = elim (Bool-cases (ltb n 10)) [
  | inl one ↦
      (let d : is_digit (n + 48) ≡ true = ground arith in
        let e : 0 + (n + 48 - 48) ≡ n = omega arith in rw one (rw (d, e) refl))
  | inr more ↦
      (let d : is_digit (n % 10 + 48) ≡ true = ground arith in
        let e : n / 10 * 10 + (n % 10 + 48 - 48) ≡ n = omega arith in
        let last : read_digits (n / 10) ((n % 10 + 48) ∷ s) ≡ read_digits n s = rw (d, e) refl in
        rw more (
          ap (read_digits 0) (append_assoc (digits fuel (n / 10)) ((n % 10 + 48) ∷ []) s)
          ∙ read_digits-digits fuel (n / 10) ((n % 10 + 48) ∷ s) (ground arith)
          ∙ last))
]

digits-digit : (fuel n : ℕ) → All (λ c. is_digit c ≡ true) (digits fuel n)
unfolding digits
digits-digit zero n = tt
digits-digit (suc fuel) n = elim (Bool-cases (ltb n 10)) [
  | inl one ↦ rw one (ground arith, tt)
  | inr more ↦
      rw more
        (All-append (λ c. is_digit c ≡ true) _ _ (digits-digit fuel (n / 10)) (ground arith, tt))
]

trim_right-digits : (s : Str) → All (λ c. is_digit c ≡ true) s → trim_right (s ++ 10 ∷ []) ≡ s
unfolding trim_right is_space
trim_right-digits [] h = refl
trim_right-digits (c ∷ s) h = ground (arith, trim_right-digits s h.1)

trim_left-digits :
    (s t : Str) → All (λ c. is_digit c ≡ true) s → nonempty s ≡ true → trim_left (s ++ t) ≡ s ++ t
unfolding trim_left is_space
trim_left-digits [] t h e = cc
trim_left-digits (c ∷ s) t h e = ground (arith, h.0)

atoi-read :
    (s : Str) (n : ℕ)
    → All (λ c. is_digit c ≡ true) s
    → nonempty s ≡ true
    → read_digits 0 s ≡ some n
    → n < 2 ^ 63
    → atoi s ≡ some (pos n)
unfolding atoi
atoi-read [] n h e r lt = cc
atoi-read (c ∷ s) n h e r lt = ground (arith, h.0, r)

digits-nonempty : (fuel n : ℕ) → nonempty (digits (suc fuel) n) ≡ true
unfolding digits
digits-nonempty fuel n = elim (Bool-cases (ltb n 10)) [
  | inl one ↦ rw one refl
  | inr more ↦ rw more (nonempty-append (digits fuel (n / 10)) _ _)
]
  where
    nonempty-append : (s : Str) (c : ℕ) (t : Str) → nonempty (s ++ c ∷ t) ≡ true
    nonempty-append [] c t = refl
    nonempty-append (d ∷ s) c t = refl

-- A number of 63 bits on a line of its own is read back.
pub atoi-itoa : (n : ℕ) → n < 2 ^ 63 → atoi (trim_space (itoa n ++ 10 ∷ [])) ≡ some (pos n)
atoi-itoa n lt =
    let ds = digits (suc n) n in
    let each = digits-digit (suc n) n in
    let some_digit = digits-nonempty n n in
    let read =
      ap (read_digits 0) (sym (append-nil ds)) ∙ read_digits-digits (suc n) n [] (omega arith) in
    ap (λ s. atoi (trim_right s)) (trim_left-digits ds (10 ∷ []) each some_digit)
    ∙ ap atoi (trim_right-digits ds each)
    ∙ atoi-read ds n each some_digit (read ∙ unfold read_digits in refl) lt
