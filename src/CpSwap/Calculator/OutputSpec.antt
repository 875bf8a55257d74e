-- ===== src/CpSwap/Calculator/OutputSpec.antt =====
-- What a swap for an exact output promises, said without the code's divisions, and that the
-- calculator's `swap_base_output` (sega-cp-swap/src/calculator.rs) is that promise.
use native.Mathlib.Nat.{mul-le-mul_left, mul-sub, lt_of_mul-lt-mul_right}
use jupiter_amm_implementati.Base.{ℕ, ◌+◌, ◌*◌, ◌-◌, ◌≤◌, ◌<◌, ◌≡◌, ◌↔◌, ok, u64_max, arith}
use jupiter_amm_implementati.CpSwap.Fees.{fee_rate_denominator_value}
use jupiter_amm_implementati.CpSwap.Fees.Bounds.{
  trading_fee-IsCeilFee, protocol_fee-IsFloorFee, fund_fee-IsFloorFee,
}
use jupiter_amm_implementati.CpSwap.Fees.GrossUp.{IsGrossedUp, calculate_pre_fee_amount-IsGrossedUp}
use jupiter_amm_implementati.CpSwap.ConstantProduct.Invariant.{
  swap_base_output_without_fees_product,
}
use jupiter_amm_implementati.CpSwap.Calculator.{SwapResult, FeeRates, swap_base_output}
use jupiter_amm_implementati.CpSwap.Calculator.Output.{
  swap_base_output-OutputSteps, swap_base_output_total,
}
use jupiter_amm_implementati.CpSwap.Calculator.Spec.{
  IsLeast, IsGreatest, least_unique, greatest_unique, Covers, Within, KeepsProduct,
}

-- An amount of which the rate's exact part leaves no less than `net`.
abbrev pub Leaves : ℕ → ℕ → ℕ → Type 0
Leaves net rate amount =
    net * fee_rate_denominator_value + amount * rate ≤ amount * fee_rate_denominator_value

-- The pool takes the least that keeps the product for what it pays, the least amount is charged of
-- which the rate leaves that, the fee is the least that covers the rate, and its parts are the
-- greatest within theirs.
pub record IsOutputOf (dy x y : ℕ) (rates : FeeRates) (r : SwapResult) : Type 0 where
  pub net : ℕ
  pub taken : IsLeast (λ n. KeepsProduct n x y dy) net
  pub charged : IsLeast (Leaves net rates.trade_fee_rate) r.source_amount_swapped
  pub fee : IsLeast (Covers r.source_amount_swapped rates.trade_fee_rate) r.trade_fee
  pub protocol : IsGreatest (Within r.trade_fee rates.protocol_fee_rate) r.protocol_fee
  pub fund : IsGreatest (Within r.trade_fee rates.fund_fee_rate) r.fund_fee
  pub destination : r.destination_amount_swapped ≡ dy
  pub new_source : r.new_swap_source_amount ≡ x + r.source_amount_swapped
  pub new_destination : r.new_swap_destination_amount ≡ y - dy

least_taken :
    (dy x y net : ℕ)
    → (x + net) * (y - dy) < x * y + (y - dy)
    → (m : ℕ) → KeepsProduct m x y dy
    → net ≤ m
least_taken dy x y net tight m (paid, keeps) =
    let scaled : (x + net) * (y - dy) < (x + m + 1) * (y - dy) = omega arith in
    omega (arith, lt_of_mul-lt-mul_right (y - dy) scaled)

least_charged :
    (net rate amount : ℕ) → IsGrossedUp net rate amount → (m : ℕ) → Leaves net rate m → amount ≤ m
least_charged net rate amount (low, high, below) m enough =
    let share = fee_rate_denominator_value - rate in
    let whole = mul-sub amount fee_rate_denominator_value rate in
    let room = mul-le-mul_left amount below in
    let whole' = mul-sub m fee_rate_denominator_value rate in
    let room' = mul-le-mul_left m below in
    let scaled : amount * share < (m + 1) * share = omega arith in
    omega (arith, lt_of_mul-lt-mul_right share scaled)

-- The least of a family, at two parameters that are equal.
least_unique_of :
    (P : ℕ → ℕ → Type 0) (k k' m n : ℕ) → k ≡ k' → IsLeast (P k) m → IsLeast (P k') n → m ≡ n
least_unique_of P k k' m n same (p, least) (p', least') =
    let q : P k' m = rw (← same) p in
    let q' : P k n = rw same p' in omega (arith, least n q', least' m q)

module _ (dy x y : ℕ) (rates : FeeRates) where
  pub swap_base_output-IsOutputOf :
      {r : SwapResult}
      → y - dy ≤ x * dy * 2
      → swap_base_output dy x y rates ≡ ok r
      → IsOutputOf dy x y rates r
  swap_base_output-IsOutputOf {r} half h =
      let (exact, s) = swap_base_output-OutputSteps dy x y rates h in
      let (below, keeps, tight) = swap_base_output_without_fees_product dy x y half s.curve in
      let t = rates.trade_fee_rate in
      let grossed = calculate_pre_fee_amount-IsGrossedUp exact t s.gross in
      let (fee_low, fee_high) = trading_fee-IsCeilFee r.source_amount_swapped t s.trade in
      let (p_low, p_high) =
        protocol_fee-IsFloorFee r.trade_fee rates.protocol_fee_rate s.protocol in
      let (f_low, f_high) = fund_fee-IsFloorFee r.trade_fee rates.fund_fee_rate s.fund in
      record {
        net = exact;
        taken = ((omega arith, keeps), least_taken dy x y exact tight);
        charged = (grossed.0, least_charged exact t r.source_amount_swapped grossed);
        fee = (fee_low, λ m c. omega (arith, c));
        protocol = (p_low, λ m c. omega (arith, c));
        fund = (f_low, λ m c. omega (arith, c));
        destination = s.destination;
        new_source = s.new_source;
        new_destination = s.new_destination;
      }

  IsOutputOf-unique :
      (r r' : SwapResult) → IsOutputOf dy x y rates r → IsOutputOf dy x y rates r' → r ≡ r'
  IsOutputOf-unique r r' s s' =
      let net = least_unique (λ n. KeepsProduct n x y dy) _ _ s.taken s'.taken in
      let charge =
        least_unique_of (λ n. Leaves n rates.trade_fee_rate) _ _ _ _ net s.charged s'.charged in
      let fee = least_unique_of (λ a. Covers a rates.trade_fee_rate) _ _ _ _ charge s.fee s'.fee in
      let protocol =
        greatest_unique (λ fee. Within fee rates.protocol_fee_rate) _ _ _ _ fee s.protocol
          s'.protocol in
      let fund =
        greatest_unique (λ fee. Within fee rates.fund_fee_rate) _ _ _ _ fee s.fund s'.fund in
      cc (
        charge, fee, protocol, fund, s.destination, s'.destination, s.new_source, s'.new_source,
        s.new_destination, s'.new_destination,
      )

-- With reserves of 64 bits, a demand below the destination reserve whose charge fits 64 bits and is
-- not rounded down to 0, a trade fee rate below the denominator and part rates up to it, a result is
-- the one of `swap_base_output` exactly when it pays the demand and charges the least amount of which
-- the trade fee rate leaves the least that keeps the product of the reserves, with the least fee
-- that covers the rate and the greatest parts within theirs, and moves the reserves by those.
pub swap_base_output-IsOutputOf_iff :
    (dy x y : ℕ) (rates : FeeRates) (r : SwapResult)
    → x ≤ u64_max
    → y ≤ u64_max
    → dy < y
    → x * dy ≤ u64_max * (y - dy)
    → y - dy ≤ x * dy * 2
    → rates.trade_fee_rate < fee_rate_denominator_value
    → rates.protocol_fee_rate ≤ fee_rate_denominator_value
    → rates.fund_fee_rate ≤ fee_rate_denominator_value
    → (swap_base_output dy x y rates ≡ ok r) ↔ IsOutputOf dy x y rates r
swap_base_output-IsOutputOf_iff dy x y rates r hx hy below fits half ht hp hf = (
  swap_base_output-IsOutputOf dy x y rates half,
  λ s.
      let (r', e) = swap_base_output_total dy x y rates hx hy below fits ht hp hf in
      let same =
        IsOutputOf-unique dy x y rates r r' s (swap_base_output-IsOutputOf dy x y rates half e) in
      rw same e,
)
