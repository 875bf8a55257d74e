-- ===== src/CpSwap/ConstantProduct/DepositWithdraw.antt =====
-- Pool tokens bought and given back (`lp_tokens_to_trading_tokens` of
-- sega-cp-swap/src/constant_product.rs, rounded up and then down).
use native.Mathlib.Nat.{div-le_of_le-mul, div-eq_of_lt}
use jupiter_amm_implementati.Base.{ℕ, ◌+◌, ◌*◌, ◌/◌, ◌≤◌, ◌≡◌, Profile, ok, inl, inr, arith}
use jupiter_amm_implementati.CpSwap.ConstantProduct.{
  floor, ceiling, TradingTokenResult, lp_tokens_to_trading_tokens,
}
use jupiter_amm_implementati.CpSwap.ConstantProduct.LpTokens.{
  IsFloorShare, IsCeilShare, lp_tokens_floor, lp_tokens_ceiling,
}

-- One side: what the tokens cost, and what they give back.
IsCeilShare-IsFloorShare :
    (lp supply reserve paid back : ℕ)
    → IsCeilShare lp supply reserve paid
    → IsFloorShare lp (supply + lp) (reserve + paid) back
    → back ≤ paid
IsCeilShare-IsFloorShare lp supply reserve paid back (inl (small, none_)) (pos, fits, value) =
    let nothing : lp * (reserve + paid) / (supply + lp) ≡ 0 =
      div-eq_of_lt (rw none_ (omega (arith))) in
    omega (arith, nothing, value)
IsCeilShare-IsFloorShare lp supply reserve paid back (inr (covers, _, _)) (pos, fits, value) =
    let enough : lp * (reserve + paid) ≤ (supply + lp) * paid = omega (arith) in
    rw value (div-le_of_le-mul (supply + lp) enough)

-- Pool tokens bought at the rounded-up price and given back at once at the rounded-down price, with
-- the supply and the reserves as the purchase leaves them, give back no more of either token than
-- they cost.
pub lp_tokens_there_and_back :
    (profile : Profile) (lp supply reserve_0 reserve_1 : ℕ) {paid back : TradingTokenResult}
    → lp_tokens_to_trading_tokens profile lp supply reserve_0 reserve_1 ceiling ≡ ok paid
    → lp_tokens_to_trading_tokens profile lp
        (supply + lp)
        (reserve_0 + paid.token_0_amount)
        (reserve_1 + paid.token_1_amount)
        floor
      ≡ ok back
    → (back.token_0_amount ≤ paid.token_0_amount) × (back.token_1_amount ≤ paid.token_1_amount)
lp_tokens_there_and_back profile lp supply reserve_0 reserve_1 bought given =
    let (cost_0, cost_1) = lp_tokens_ceiling profile lp supply reserve_0 reserve_1 bought in
    let (share_0, share_1) = lp_tokens_floor profile lp (supply + lp) _ _ given in
    (
      IsCeilShare-IsFloorShare lp supply reserve_0 _ _ cost_0 share_0,
      IsCeilShare-IsFloorShare lp supply reserve_1 _ _ cost_1 share_1,
    )
