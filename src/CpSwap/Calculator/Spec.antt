-- ===== src/CpSwap/Calculator/Spec.antt =====
-- What a swap of an exact input promises, said without the code's divisions, and that the
-- calculator's `swap_base_input` (sega-cp-swap/src/calculator.rs) is that promise.
use jupiter_amm_implementati.Base.{ℕ, ◌+◌, ◌*◌, ◌-◌, ◌≤◌, ◌<◌, ◌≡◌, ◌↔◌, ok, u64_max, arith}
use jupiter_amm_implementati.CpSwap.Fees.{fee_rate_denominator_value}
use jupiter_amm_implementati.CpSwap.Fees.Bounds.{
  trading_fee-IsCeilFee, protocol_fee-IsFloorFee, fund_fee-IsFloorFee,
}
use jupiter_amm_implementati.CpSwap.ConstantProduct.Invariant.{
  swap_base_input_without_fees_product, swap_base_input_without_fees_largest,
}
use jupiter_amm_implementati.CpSwap.Calculator.{SwapResult, FeeRates, swap_base_input}
use jupiter_amm_implementati.CpSwap.Calculator.Input.{
  swap_base_input-InputSteps, swap_base_input_total,
}

-- `n` is the least number with a property, or the greatest.
abbrev pub IsLeast : (ℕ → Type 0) → ℕ → Type 0
IsLeast P n = P n × ((m : ℕ) → P m → n ≤ m)

abbrev pub IsGreatest : (ℕ → Type 0) → ℕ → Type 0
IsGreatest P n = P n × ((m : ℕ) → P m → m ≤ n)

pub least_unique : (P : ℕ → Type 0) (m n : ℕ) → IsLeast P m → IsLeast P n → m ≡ n
least_unique P m n (p, least) (p', least') = omega (arith, least n p', least' m p)

-- The same for a family, at two parameters that are equal.
pub greatest_unique :
    (P : ℕ → ℕ → Type 0) (k k' m n : ℕ) → k ≡ k' → IsGreatest (P k) m → IsGreatest (P k') n → m ≡ n
greatest_unique P k k' m n same (p, most) (p', most') =
    let q : P k' m = rw (← same) p in
    let q' : P k n = rw same p' in omega (arith, most n q', most' m q)

-- A fee covers its rate of an amount; a part stays within its rate of a fee.
abbrev pub Covers : ℕ → ℕ → ℕ → Type 0
Covers amount rate fee = amount * rate ≤ fee * fee_rate_denominator_value

abbrev pub Within : ℕ → ℕ → ℕ → Type 0
Within fee rate part = part * fee_rate_denominator_value ≤ fee * rate

-- The pool can pay `paid` for `net` and keep the product of its reserves.
abbrev pub KeepsProduct : ℕ → ℕ → ℕ → ℕ → Type 0
KeepsProduct net x y paid = (paid ≤ y) × (x * y ≤ (x + net) * (y - paid))

-- The fee is the least that covers its rate, its parts are the greatest within theirs, and the
-- pool pays the most that keeps the product for what is left of the amount.
pub record IsSwapOf (a x y : ℕ) (rates : FeeRates) (r : SwapResult) : Type 0 where
  pub fee : IsLeast (Covers a rates.trade_fee_rate) r.trade_fee
  pub protocol : IsGreatest (Within r.trade_fee rates.protocol_fee_rate) r.protocol_fee
  pub fund : IsGreatest (Within r.trade_fee rates.fund_fee_rate) r.fund_fee
  pub covered : r.trade_fee ≤ a
  pub paid : IsGreatest (KeepsProduct (a - r.trade_fee) x y) r.destination_amount_swapped
  pub source : r.source_amount_swapped ≡ a
  pub new_source : r.new_swap_source_amount ≡ x + a
  pub new_destination : r.new_swap_destination_amount ≡ y - r.destination_amount_swapped

module _ (a x y : ℕ) (rates : FeeRates) where
  pub swap_base_input-IsSwapOf :
      {r : SwapResult} → swap_base_input a x y rates ≡ ok r → IsSwapOf a x y rates r
  swap_base_input-IsSwapOf {r} h =
      let s = swap_base_input-InputSteps a x y rates h in
      let (fee_low, fee_high) = trading_fee-IsCeilFee a rates.trade_fee_rate s.trade in
      let (p_low, p_high) =
        protocol_fee-IsFloorFee r.trade_fee rates.protocol_fee_rate s.protocol in
      let (f_low, f_high) = fund_fee-IsFloorFee r.trade_fee rates.fund_fee_rate s.fund in
      let net = a - r.trade_fee in
      let (below, keeps, _) = swap_base_input_without_fees_product net x y s.curve in
      record {
        fee = (fee_low, λ m c. omega (arith, c));
        protocol = (p_low, λ m c. omega (arith, c));
        fund = (f_low, λ m c. omega (arith, c));
        covered = s.covered;
        paid = (
          (below, keeps),
          λ m c. swap_base_input_without_fees_largest net x y m s.curve (c.0) (c.1),
        );
        source = s.source;
        new_source = s.new_source;
        new_destination = s.new_destination;
      }

  IsSwapOf-unique : (r r' : SwapResult) → IsSwapOf a x y rates r → IsSwapOf a x y rates r' → r ≡ r'
  IsSwapOf-unique r r' s s' =
      let fee = least_unique (Covers a rates.trade_fee_rate) _ _ s.fee s'.fee in
      let protocol =
        greatest_unique (λ fee. Within fee rates.protocol_fee_rate) _ _ _ _ fee s.protocol
          s'.protocol in
      let fund =
        greatest_unique (λ fee. Within fee rates.fund_fee_rate) _ _ _ _ fee s.fund s'.fund in
      let paid = greatest_unique (λ fee. KeepsProduct (a - fee) x y) _ _ _ _ fee s.paid s'.paid in
      cc (
        fee, protocol, fund, paid, s.source, s'.source, s.new_source, s'.new_source,
        s.new_destination, s'.new_destination,
      )

-- With an amount, reserves and rates of 64 bits, a source side that is not empty and a trade fee
-- rate up to the denominator, a result is the one of `swap_base_input` exactly when its fee is the
-- least that covers the rate, the fee's parts are the greatest within theirs, and the pool pays the
-- greatest amount that keeps the product of the reserves for what is left, and moves by those.
pub swap_base_input-IsSwapOf_iff :
    (a x y : ℕ) (rates : FeeRates) (r : SwapResult)
    → a ≤ u64_max
    → x ≤ u64_max
    → y ≤ u64_max
    → rates.trade_fee_rate ≤ fee_rate_denominator_value
    → rates.protocol_fee_rate ≤ u64_max
    → rates.fund_fee_rate ≤ u64_max
    → 0 < x
    → (swap_base_input a x y rates ≡ ok r) ↔ IsSwapOf a x y rates r
swap_base_input-IsSwapOf_iff a x y rates r ha hx hy ht hp hf pos = (
  swap_base_input-IsSwapOf a x y rates,
  λ s.
      let (r', e) = swap_base_input_total a x y rates ha hx hy ht hp hf pos in
      let same = IsSwapOf-unique a x y rates r r' s (swap_base_input-IsSwapOf a x y rates e) in
      rw same e,
)
