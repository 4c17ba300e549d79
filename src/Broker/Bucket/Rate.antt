-- ===== src/Broker/Bucket/Rate.antt =====
-- How many broadcasts a token bucket grants.
use native.Mathlib.Nat.{mul-le-mul_right, le-div_iff_mul-le, mul-add-div_right, div-mul-le_self}
use claude_bridge.Base.{
  ℕ, zero, suc, ◌+◌, ◌-◌, ◌*◌, ◌/◌, ◌≤◌, ◌<◌, ◌≡◌, refl, Bool, List, [], ◌∷◌, arith, min, inl, inr,
  ◌∙◌, Bool-cases, All, leb, if◌then◌else◌,
}
use claude_bridge.Broker.Clock.{since, since-le}
use claude_bridge.Broker.Bucket.{TokenBucket, refilled, take}

-- The bucket after calls at the given times, and how many were granted.
pub grants : TokenBucket → List ℕ → TokenBucket × ℕ
grants tb [] = (tb, 0)
grants tb (now ∷ later) =
    let (tb', ok) = take tb now in
    let (last, n) = grants tb' later in (last, if ok then n + 1 else n)

-- The bucket is in range, and its clock has not run past `until`.
pub record IsFilled (tb : TokenBucket) (until : ℕ) : Type 0 where
  pub paced : 0 < tb.refill
  pub within : tb.tokens ≤ tb.burst
  pub past : tb.last_refill ≤ until

-- What refilling does to the account: a token at most for each interval that the clock moves on.
record Refills (tb tb' : TokenBucket) (until : ℕ) : Type 0 where
  refill : tb'.refill ≡ tb.refill
  burst : tb'.burst ≡ tb.burst
  within : tb'.tokens ≤ tb.burst
  past : tb'.last_refill ≤ until
  account : tb'.tokens * tb.refill + tb.last_refill ≤ tb.tokens * tb.refill + tb'.last_refill

min-mul-le : (b t g r : ℕ) → min b (t + g) * r ≤ t * r + g * r
min-mul-le b t g r = omega (arith, mul-le-mul_right {m = min b (t + g)} {n = t + g} r (omega arith))

refilled-Refills :
    (tb : TokenBucket) (now until : ℕ)
    → now ≤ until
    → IsFilled tb until
    → Refills tb (refilled tb now) until
unfolding refilled
refilled-Refills tb now until le h =
    let elapsed = since now tb.last_refill in
    let gained = elapsed / tb.refill in
    let whole : gained * tb.refill ≤ elapsed = div-mul-le_self elapsed tb.refill in
    elim (Bool-cases (leb tb.refill elapsed)) [
      | inl e ↦ rw e (record {
        refill = refl;
        burst = refl;
        within = omega arith;
        past = ground (arith, whole, since-le now tb.last_refill);
        account = omega (arith, min-mul-le tb.burst tb.tokens gained tb.refill);
      })
      | inr e ↦ rw e (record {
        refill = refl;
        burst = refl;
        within = h.within;
        past = h.past;
        account = omega arith;
      })
    ]

-- Each grant costs a token.
record Takes (tb tb' : TokenBucket) (ok : Bool) (until : ℕ) : Type 0 where
  refill : tb'.refill ≡ tb.refill
  filled : IsFilled tb' until
  account :
      (if ok then 1 else 0) * tb.refill + tb'.tokens * tb.refill + tb.last_refill
      ≤ tb.tokens * tb.refill + tb'.last_refill

take-Takes :
    (tb : TokenBucket) (now until : ℕ)
    → now ≤ until
    → IsFilled tb until
    → Takes tb (take tb now).0 (take tb now).1 until
unfolding take
take-Takes tb now until le h =
    let r = refilled-Refills tb now until le h in
    let tb' = refilled tb now in
    let paced : 0 < tb'.refill = ground (arith, r.refill, h.paced) in
    let within : tb'.tokens ≤ tb'.burst = ground (arith, r.within, r.burst) in
    elim (Bool-cases (leb tb'.tokens 0)) [
      | inl e ↦ rw e (record {
        refill = r.refill;
        filled = record { paced = paced; within = within; past = r.past };
        account = omega (arith, r.account);
      })
      | inr e ↦ rw e (record {
        refill = r.refill;
        filled = record { paced = paced; within = omega arith; past = r.past };
        account =
            spend tb'.tokens tb.refill tb.last_refill tb.tokens tb'.last_refill (ground arith)
              r.account;
      })
    ]
  where
    spend : (t r a b c : ℕ) → 0 < t → t * r + a ≤ b * r + c → 1 * r + (t - 1) * r + a ≤ b * r + c
    spend zero r a b c lt le = absurd (omega arith)
    spend (suc t) r a b c lt le = let e : suc t - 1 ≡ t = omega arith in rw e (omega arith)

account_at :
    (k r o n a b c : ℕ) → k ≡ r → o * k + n * k + a ≤ b * k + c → o * r + n * r + a ≤ b * r + c
account_at k r o n a b c e le = rw e at le

grants_account :
    (r : ℕ) (tb : TokenBucket) (times : List ℕ) (until : ℕ)
    → tb.refill ≡ r
    → IsFilled tb until
    → All (λ now. now ≤ until) times
    → (grants tb times).1 * r + tb.last_refill ≤ tb.tokens * r + until
unfolding grants
grants_account r tb [] until e h a = omega (arith, h.past)
grants_account r tb (now ∷ later) until e h a =
    let t = take-Takes tb now until a.0 h in
    let tb' = (take tb now).0 in
    let account =
      account_at tb.refill r (if (take tb now).1 then 1 else 0) tb'.tokens tb.last_refill tb.tokens
        tb'.last_refill e t.account in
    let ih = grants_account r (take tb now).0 later until (t.refill ∙ e) t.filled a.1 in
    elim (Bool-cases (take tb now).1) [
      | inl ok ↦ rw ok (let spent = rw ok at account in omega (arith, ih, spent))
      | inr denied ↦ rw denied (let spent = rw denied at account in omega (arith, ih, spent))
    ]

-- Up to the time `until`, whatever the calls, a bucket grants at most the tokens it holds and one
-- for each whole refill interval since its last refill.
pub grants_bounded :
    (tb : TokenBucket) (times : List ℕ) (until : ℕ)
    → IsFilled tb until
    → All (λ now. now ≤ until) times
    → (grants tb times).1 ≤ tb.tokens + (until - tb.last_refill) / tb.refill
grants_bounded tb times until h a =
    whole (grants tb times).1 tb.tokens (until - tb.last_refill) tb.refill h.paced
      (omega (arith, grants_account tb.refill tb times until refl h a, h.past))
  where
    whole : (n t d r : ℕ) → 0 < r → n * r ≤ t * r + d → n ≤ t + d / r
    whole n t d r p le = rw (mul-add-div_right p t d) at ((le-div_iff_mul-le p).1 le)
