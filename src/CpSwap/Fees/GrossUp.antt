-- ===== src/CpSwap/Fees/GrossUp.antt =====
-- Lemmas on `Fees::calculate_pre_fee_amount` (sega-cp-swap/src/fees.rs).
use native.Mathlib.Nat.{mul-le-mul_left, mul-sub, div-mul-le_self, lt-div-mul-add}
use jupiter_amm_implementati.Base.{
  ℕ, zero, suc, refl, true, is_ok, is_ok→value, ◌+◌, ◌*◌, ◌-◌, ◌/◌, ◌≤◌, ◌<◌, ◌≡◌, ok, u64_max,
  arith, ◌==◌, Bool-cases, inl, inr,
}
use jupiter_amm_implementati.CpSwap.Fees.{
  fee_rate_denominator_value, trading_fee, gross_up, calculate_pre_fee_amount,
}
use jupiter_amm_implementati.CpSwap.Fees.Bounds.{trading_fee-IsCeilFee}

-- `pre` is the least amount whose share `denominator - rate` covers `post`.
abbrev pub IsGrossedUp : ℕ → ℕ → ℕ → Type 0
IsGrossedUp post rate pre =
    (post * fee_rate_denominator_value + pre * rate ≤ pre * fee_rate_denominator_value)
    × (pre * fee_rate_denominator_value + rate
        < post * fee_rate_denominator_value + pre * rate + fee_rate_denominator_value)
    × (rate < fee_rate_denominator_value)

gross_up_value :
    (post rate : ℕ) {pre : ℕ}
    → gross_up post rate ≡ ok pre
    → (rate < fee_rate_denominator_value)
      × (pre
          ≡ (post * fee_rate_denominator_value + (fee_rate_denominator_value - rate) - 1)
            / (fee_rate_denominator_value - rate))
unfolding gross_up
gross_up_value post rate h = ground arith

gross_up-IsGrossedUp :
    (post rate : ℕ) {pre : ℕ} → gross_up post rate ≡ ok pre → IsGrossedUp post rate pre
gross_up-IsGrossedUp post rate {pre} h =
    let (below, value) = gross_up_value post rate h in
    let share = fee_rate_denominator_value - rate in
    let top = post * fee_rate_denominator_value + share - 1 in
    let low : pre * share ≤ top = rw value (div-mul-le_self top share) in
    let high : top < pre * share + share = rw value (lt-div-mul-add (omega arith)) in
    omega (arith, mul-sub pre fee_rate_denominator_value rate, mul-le-mul_left pre below)

pub calculate_pre_fee_amount-IsGrossedUp :
    (post rate : ℕ) {pre : ℕ}
    → calculate_pre_fee_amount post rate ≡ ok pre
    → IsGrossedUp post rate pre
unfolding calculate_pre_fee_amount
calculate_pre_fee_amount-IsGrossedUp post rate h = elim (Bool-cases (rate == 0)) [
  | inl z ↦ ground arith
  | inr nz ↦ gross_up-IsGrossedUp post rate (rw nz at h)
]

-- Taking the trading fee off the grossed up amount gives back the amount exactly.
pub trading_fee-calculate_pre_fee_amount :
    (post rate : ℕ) {pre fee : ℕ}
    → calculate_pre_fee_amount post rate ≡ ok pre
    → trading_fee pre rate ≡ ok fee
    → (fee ≤ pre) × (pre - fee ≡ post)
trading_fee-calculate_pre_fee_amount post rate {pre} eg ef =
    omega
      (arith, calculate_pre_fee_amount-IsGrossedUp post rate eg, trading_fee-IsCeilFee pre rate ef)

-- Nothing is grossed up to nothing.
pub IsGrossedUp-zero : (rate pre : ℕ) → IsGrossedUp 0 rate pre → pre ≡ 0
IsGrossedUp-zero rate zero g = refl
IsGrossedUp-zero rate (suc k) (low, high, below) =
    absurd (omega (arith, mul-le-mul_left {m = rate} {n = fee_rate_denominator_value} k))

IsGrossedUp-le :
    (post rate pre : ℕ)
    → IsGrossedUp post rate pre
    → pre ≤ post * fee_rate_denominator_value + fee_rate_denominator_value
IsGrossedUp-le post rate pre (low, high, below) =
    let one_share : pre * 1 ≤ pre * (fee_rate_denominator_value - rate) =
      mul-le-mul_left pre (omega arith) in
    omega (arith, mul-sub pre fee_rate_denominator_value rate, mul-le-mul_left pre below)

gross_up_ok :
    (post rate : ℕ)
    → post ≤ u64_max
    → rate < fee_rate_denominator_value
    → is_ok (gross_up post rate) ≡ true
unfolding gross_up
gross_up_ok post rate h below = ground arith

-- An amount of 64 bits is grossed up to a result wherever the rate is below the denominator.
pub calculate_pre_fee_amount_total :
    (post rate : ℕ)
    → post ≤ u64_max
    → rate < fee_rate_denominator_value
    → (pre : ℕ) × (calculate_pre_fee_amount post rate ≡ ok pre)
      × (pre ≤ post * fee_rate_denominator_value + fee_rate_denominator_value)
calculate_pre_fee_amount_total post rate h below =
    let (pre, e) = is_ok→value (calculate_pre_fee_amount post rate) defined in
    (pre, e, IsGrossedUp-le post rate pre (calculate_pre_fee_amount-IsGrossedUp post rate e))
  where
    defined : is_ok (calculate_pre_fee_amount post rate) ≡ true
    defined = unfold calculate_pre_fee_amount in (ground (arith, gross_up_ok post rate h below))
