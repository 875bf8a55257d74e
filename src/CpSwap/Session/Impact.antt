-- ===== src/CpSwap/Session/Impact.antt =====
-- Lemmas on what the swaps of others do to the payment of a swap
-- (sega-cp-swap/src/calculator.rs).
use native.Mathlib.Nat.{le_trans, mul-le-mul, mul-le-mul_left, mul-le-mul_right}
use jupiter_amm_implementati.Base.{
  ℕ, ◌+◌, ◌*◌, ◌-◌, ◌≤◌, ◌≡◌, Bool, List, [], ◌∷◌, ok, >>=_elim, ap, sym, ◌∙◌, arith,
}
use jupiter_amm_implementati.CpSwap.Fees.{fee_rate_denominator_value}
use jupiter_amm_implementati.CpSwap.Fees.Bounds.{fee_parts-le}
use jupiter_amm_implementati.CpSwap.Calculator.{SwapResult, FeeRates, swap_base_input}
use jupiter_amm_implementati.CpSwap.Calculator.Input.{swap_base_input-InputSteps}
use jupiter_amm_implementati.CpSwap.Calculator.Output.{
  swap_base_output-OutputSteps, swap_base_output_moves,
}
use jupiter_amm_implementati.CpSwap.Calculator.Spec.{Covers, KeepsProduct, swap_base_input-IsSwapOf}
use jupiter_amm_implementati.CpSwap.Session.{
  Reserves, Order, exact_in, exact_out, turn, reserves_after, side, swap, execute, run,
}
use jupiter_amm_implementati.CpSwap.Session.Splitting.{turn-turn}

payment_fits :
    (net net' x x' left left' paid : ℕ)
    → net ≤ net'
    → x' ≤ x
    → left ≤ left'
    → x * (left + paid) ≤ (x + net) * left
    → x' * (left' + paid) ≤ (x' + net') * left'
payment_fits net net' x x' left left' paid more deep shallow keeps =
    omega (arith, keeps, mul-le-mul_right paid deep, mul-le-mul more shallow)

-- What a swap is paid could be paid for a larger net amount too, and by a pool whose source side is
-- no deeper and whose destination side is no shallower.
KeepsProduct-le :
    (net net' x x' y y' paid : ℕ)
    → net ≤ net'
    → x' ≤ x
    → y ≤ y'
    → KeepsProduct net x y paid
    → KeepsProduct net' x' y' paid
KeepsProduct-le net net' x x' y y' paid more deep shallow (below, keeps) =
    let whole : y ≡ y - paid + paid = omega arith in
    let whole' : y' - paid + paid ≡ y' = omega arith in
    let left : y - paid ≤ y' - paid = omega arith in
    let kept : x * (y - paid + paid) ≤ (x + net) * (y - paid) = rw (← whole) keeps in
    let fits = payment_fits net net' x x' (y - paid) (y' - paid) paid more deep left kept in
    (omega arith, rw whole' at fits)

-- The larger amount's fee grows by no more than the amount.
fee_le :
    (a a' rate fee fee' : ℕ)
    → rate ≤ fee_rate_denominator_value
    → a ≤ a'
    → Covers a rate fee
    → ((m : ℕ) → Covers a' rate m → fee' ≤ m)
    → fee' ≤ fee + (a' - a)
fee_le a a' rate fee fee' small more covers least =
    let whole : a' ≡ a + (a' - a) = omega arith in
    let rest = mul-le-mul_left (a' - a) small in
    least (fee + (a' - a)) (rw whole omega (arith, covers, rest))

module _ (rates : FeeRates) (small : rates.trade_fee_rate ≤ fee_rate_denominator_value) where
  -- A larger amount, or a pool with no more of the source token and no less of the destination token,
  -- pays no less.
  pub swap_base_input_monotone :
      (a a' x x' y y' : ℕ) {r r' : SwapResult}
      → a ≤ a'
      → x' ≤ x
      → y ≤ y'
      → swap_base_input a x y rates ≡ ok r
      → swap_base_input a' x' y' rates ≡ ok r'
      → r.destination_amount_swapped ≤ r'.destination_amount_swapped
  swap_base_input_monotone a a' x x' y y' {r} {r'} more deep shallow h h' =
      let s = swap_base_input-IsSwapOf a x y rates h in
      let s' = swap_base_input-IsSwapOf a' x' y' rates h' in
      let fee =
        fee_le a a' rates.trade_fee_rate r.trade_fee r'.trade_fee small more s.fee.0 s'.fee.1 in
      let covered = s.covered in
      let net : a - r.trade_fee ≤ a' - r'.trade_fee = omega arith in
      s'.paid.1 r.destination_amount_swapped
        (KeepsProduct-le _ _ x x' y y' r.destination_amount_swapped net deep shallow s.paid.0)

-- The orders of a run all have their source on one side.
abbrev pub AllOn : FeeRates → Bool → List Order → Type 0
AllOn rates b [] = Unit
AllOn rates b (order ∷ orders) = (side rates order ≡ b) × AllOn rates b orders

-- The source side has not gone down and the destination side has not gone up.
abbrev pub HasMoved : Reserves → Reserves → Type 0
HasMoved p q = (p.0 ≤ q.0) × (q.1 ≤ p.1)

module _ (rates : FeeRates)
    (parts : rates.protocol_fee_rate + rates.fund_fee_rate ≤ fee_rate_denominator_value) where
  swap-HasMoved :
      (order : Order) (p : Reserves) {r : SwapResult}
      → swap rates order p ≡ ok r
      → HasMoved (turn (side rates order) p) (reserves_after r)
  unfolding swap
  swap-HasMoved (exact_in b amount) p {r} h =
      let s = swap_base_input-InputSteps amount (turn b p).0 (turn b p).1 rates h in
      let set_aside =
        fee_parts-le r.trade_fee rates.protocol_fee_rate rates.fund_fee_rate parts s.protocol
          s.fund in
      let covered = s.covered in (omega (arith, s.new_source), omega (arith, s.new_destination))
  swap-HasMoved (exact_out b amount) p {r} h =
      let (exact, s) = swap_base_output-OutputSteps amount (turn b p).0 (turn b p).1 rates h in
      let (_, _, _, covered, _, _) =
        swap_base_output_moves amount (turn b p).0 (turn b p).1 rates h in
      let set_aside =
        fee_parts-le r.trade_fee rates.protocol_fee_rate rates.fund_fee_rate parts s.protocol
          s.fund in
      (omega (arith, s.new_source), omega (arith, s.new_destination))

  execute-HasMoved :
      (order : Order) (b : Bool) (p : Reserves) {q : Reserves}
      → side rates order ≡ b
      → execute rates order p ≡ ok q
      → HasMoved (turn b p) (turn b q)
  unfolding execute
  execute-HasMoved order b p {q} on h = >>=_elim (swap rates order p) _ h λ r e h_0.
      let turned : turn b (reserves_after r) ≡ q = cc (h_0, on) in
      let after : turn b q ≡ reserves_after r =
        sym (ap (turn b) turned) ∙ turn-turn b (reserves_after r) in
      let moved = swap-HasMoved order p e in rw after (rw on at moved)

  pub run-HasMoved :
      (orders : List Order) (b : Bool) (p : Reserves) {q : Reserves}
      → AllOn rates b orders
      → run rates orders p ≡ ok q
      → HasMoved (turn b p) (turn b q)
  unfolding run
  run-HasMoved [] b p {q} on h = let same : p ≡ q = cc (h) in rw same (omega arith, omega arith)
  run-HasMoved (order ∷ orders) b p (on, rest) h = >>=_elim (execute rates order p) _ h λ m e h_0.
      let first = execute-HasMoved order b p on e in
      let then_ = run-HasMoved orders b m rest h_0 in
      (le_trans first.0 then_.0, le_trans then_.1 first.1)

  -- With a protocol rate and a fund rate that together are at most the denominator, and a trade fee
  -- rate up to it: after any run of swaps from the same side, exact inputs or exact outputs, no amount
  -- is paid more than it, or a larger amount, was before the run.
  pub run_dearer :
      (b : Bool) (orders : List Order) (p : Reserves) (a a' : ℕ) {q : Reserves} {r r' : SwapResult}
      → rates.trade_fee_rate ≤ fee_rate_denominator_value
      → AllOn rates b orders
      → run rates orders p ≡ ok q
      → a' ≤ a
      → swap_base_input a (turn b p).0 (turn b p).1 rates ≡ ok r
      → swap_base_input a' (turn b q).0 (turn b q).1 rates ≡ ok r'
      → r'.destination_amount_swapped ≤ r.destination_amount_swapped
  run_dearer b orders p a a' {q} small on h less before after =
      let (deeper, shallower) = run-HasMoved orders b p on h in
      swap_base_input_monotone rates small a' a (turn b q).0 (turn b p).0 (turn b q).1 (turn b p).1
        less deeper shallower after before
