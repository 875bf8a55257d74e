-- ===== src/CpSwap/Fees/Bounds.antt =====
-- Lemmas on the three fees of a swap (sega-cp-swap/src/fees.rs).
use native.Mathlib.Nat.{mul-le-mul, mul-le-mul_left}
use jupiter_amm_implementati.Base.{
  ℕ, ◌+◌, ◌*◌, ◌/◌, ◌≤◌, ◌<◌, ◌≡◌, ok, err, panic, nothing, u64_max, u128_max, arith,
}
use jupiter_amm_implementati.CpSwap.Fees.{
  fee_rate_denominator_value, trading_fee, protocol_fee, fund_fee,
}

-- `fee` is `amount * rate` over the denominator, rounded up.
abbrev pub IsCeilFee : ℕ → ℕ → ℕ → Type 0
IsCeilFee amount rate fee =
    (amount * rate ≤ fee * fee_rate_denominator_value)
    × (fee * fee_rate_denominator_value < amount * rate + fee_rate_denominator_value)

-- `part` is `amount * rate` over the denominator, rounded down.
abbrev pub IsFloorFee : ℕ → ℕ → ℕ → Type 0
IsFloorFee amount rate part =
    (part * fee_rate_denominator_value ≤ amount * rate)
    × (amount * rate < part * fee_rate_denominator_value + fee_rate_denominator_value)

pub trading_fee-IsCeilFee :
    (amount rate : ℕ) {fee : ℕ} → trading_fee amount rate ≡ ok fee → IsCeilFee amount rate fee
unfolding trading_fee
trading_fee-IsCeilFee amount rate h = ground arith

pub protocol_fee-IsFloorFee :
    (amount rate : ℕ) {part : ℕ} → protocol_fee amount rate ≡ ok part → IsFloorFee amount rate part
unfolding protocol_fee
protocol_fee-IsFloorFee amount rate h = ground arith

pub fund_fee-IsFloorFee :
    (amount rate : ℕ) {part : ℕ} → fund_fee amount rate ≡ ok part → IsFloorFee amount rate part
unfolding fund_fee
fund_fee-IsFloorFee amount rate h = ground arith

-- When `trading_fee` has a result, and how it fails otherwise.
pub trading_fee_ok :
    (amount rate : ℕ)
    → amount * rate + fee_rate_denominator_value ≤ u128_max
    → trading_fee amount rate ≡ ok ((amount * rate + 999_999) / fee_rate_denominator_value)
unfolding trading_fee
trading_fee_ok amount rate h = ground arith

trading_fee_none :
    (amount rate : ℕ)
    → amount * rate ≤ u128_max
    → u128_max < amount * rate + fee_rate_denominator_value
    → trading_fee amount rate ≡ err nothing
unfolding trading_fee
trading_fee_none amount rate fits over = ground arith

trading_fee_panic : (amount rate : ℕ) → u128_max < amount * rate → trading_fee amount rate ≡ panic
unfolding trading_fee
trading_fee_panic amount rate over = ground arith

pub protocol_fee_ok :
    (amount rate : ℕ)
    → amount * rate ≤ u128_max
    → protocol_fee amount rate ≡ ok (amount * rate / fee_rate_denominator_value)
unfolding protocol_fee
protocol_fee_ok amount rate h = ground arith

pub fund_fee_ok :
    (amount rate : ℕ)
    → amount * rate ≤ u128_max
    → fund_fee amount rate ≡ ok (amount * rate / fee_rate_denominator_value)
unfolding fund_fee
fund_fee_ok amount rate h = ground arith

-- The product of two words leaves room for the denominator in a double word.
pub word_product_fits :
    {a b : ℕ} → a ≤ u64_max → b ≤ u64_max → a * b + fee_rate_denominator_value ≤ u128_max
word_product_fits ha hb = omega (arith, mul-le-mul ha hb)

IsCeilFee-le :
    (amount rate fee : ℕ)
    → rate ≤ fee_rate_denominator_value
    → IsCeilFee amount rate fee
    → fee ≤ amount
IsCeilFee-le amount rate fee h c = omega (arith, mul-le-mul_left amount h)

-- A rate up to the denominator never takes more than the amount.
pub trading_fee-le :
    (amount rate : ℕ) {fee : ℕ}
    → rate ≤ fee_rate_denominator_value
    → trading_fee amount rate ≡ ok fee
    → fee ≤ amount
trading_fee-le amount rate {fee} h e =
    IsCeilFee-le amount rate fee h (trading_fee-IsCeilFee amount rate e)

-- Splitting an amount into two trades never lowers the fee, and saves at most one unit.
pub trading_fee_split :
    (a b rate : ℕ) {fa fb fab : ℕ}
    → trading_fee a rate ≡ ok fa
    → trading_fee b rate ≡ ok fb
    → trading_fee (a + b) rate ≡ ok fab
    → (fab ≤ fa + fb) × (fa + fb ≤ fab + 1)
trading_fee_split a b rate ea eb eab = omega (
  arith,
  trading_fee-IsCeilFee a rate ea,
  trading_fee-IsCeilFee b rate eb,
  trading_fee-IsCeilFee (a + b) rate eab,
)

-- The protocol's and the fund's parts are cut out of the trade fee and never exceed it.
pub fee_parts-le :
    (fee p f : ℕ) {protocol fund : ℕ}
    → p + f ≤ fee_rate_denominator_value
    → protocol_fee fee p ≡ ok protocol
    → fund_fee fee f ≡ ok fund
    → protocol + fund ≤ fee
fee_parts-le fee p f h ep ef =
    omega
      (arith, mul-le-mul_left fee h, protocol_fee-IsFloorFee fee p ep, fund_fee-IsFloorFee fee f ef)
