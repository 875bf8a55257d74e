-- ===== src/CpSwap/Session/Solvency.antt =====
-- Lemmas on the reserves over any run of swaps (sega-cp-swap/src/calculator.rs).
use native.Mathlib.Nat.{le_trans, mul_comm}
use jupiter_amm_implementati.Base.{
  ℕ, ◌+◌, ◌*◌, ◌≤◌, ◌≡◌, true, false, List, [], ◌∷◌, ok, >>=_elim, ap, refl, Bool, arith,
}
use jupiter_amm_implementati.CpSwap.Fees.{fee_rate_denominator_value}
use jupiter_amm_implementati.CpSwap.Calculator.{SwapResult, FeeRates}
use jupiter_amm_implementati.CpSwap.Calculator.Input.{swap_base_input_net_product}
use jupiter_amm_implementati.CpSwap.Calculator.Output.{swap_base_output_net_product}
use jupiter_amm_implementati.CpSwap.Session.{
  Reserves, Order, exact_in, exact_out, turn, reserves_after, side, swap, execute, run, IsCharged,
  AllCharged,
}

abbrev pub product : Reserves → ℕ
product p = p.0 * p.1

product-turn : (b : Bool) (p : Reserves) → product (turn b p) ≡ product p
product-turn true p = refl
product-turn false p = mul_comm p.1 p.0

module _ (rates : FeeRates)
    (parts : rates.protocol_fee_rate + rates.fund_fee_rate ≤ fee_rate_denominator_value) where
  swap-product :
      (order : Order) (p : Reserves) {r : SwapResult}
      → IsCharged rates order p
      → swap rates order p ≡ ok r
      → product (turn (side rates order) p) ≤ product (reserves_after r)
  unfolding swap
  swap-product (exact_in b amount) p charged h =
      (swap_base_input_net_product amount (turn b p).0 (turn b p).1 rates parts h).1
  swap-product (exact_out b amount) p charged h =
      (swap_base_output_net_product amount (turn b p).0 (turn b p).1 rates parts charged h).1

  pub execute-product :
      (order : Order) (p : Reserves) {q : Reserves}
      → IsCharged rates order p
      → execute rates order p ≡ ok q
      → product p ≤ product q
  unfolding execute
  execute-product order p {q} charged h = >>=_elim (swap rates order p) _ h λ r e h_0.
      let same : turn (side rates order) (reserves_after r) ≡ q = cc (h_0) in
      omega (
        arith,
        product-turn (side rates order) p,
        product-turn (side rates order) (reserves_after r),
        swap-product order p charged e,
        ap product same,
      )

  -- With a protocol rate and a fund rate that together are at most the denominator, and no exact
  -- output so small that its charge is rounded to 0, a run of any swaps in any directions never
  -- lowers the product of the reserves that are left once the protocol's and the fund's parts are
  -- set aside.
  pub run-product :
      (orders : List Order) (p : Reserves) {q : Reserves}
      → AllCharged rates orders p
      → run rates orders p ≡ ok q
      → p.0 * p.1 ≤ q.0 * q.1
  unfolding run
  run-product [] p charged h = ground arith
  run-product (order ∷ orders) p (charged, rest) h =
      >>=_elim (execute rates order p) _ h λ q e h_0.
        le_trans (execute-product order p charged e) (run-product orders q (rest q e) h_0)
