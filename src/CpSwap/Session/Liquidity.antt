-- ===== src/CpSwap/Session/Liquidity.antt =====
-- Lemmas on the worth of a pool token over swaps, deposits and withdrawals in a row
-- (sega-cp-swap/src/calculator.rs).
use native.Mathlib.Nat.{
  mul-le-mul, mul-le-mul_right, le_of_mul-le-mul_right, mul-sub, mul-pos, mul-div-le,
}
use jupiter_amm_implementati.Base.{
  ℕ, ◌+◌, ◌-◌, ◌*◌, ◌≤◌, ◌<◌, ◌≡◌, ◌⊎◌, List, [], ◌∷◌, Profile, ok, try, >>=_elim, checked_sub, inl,
  inr, arith,
}
use jupiter_amm_implementati.CpSwap.Fees.{fee_rate_denominator_value}
use jupiter_amm_implementati.CpSwap.ConstantProduct.{floor, ceiling, TradingTokenResult}
use jupiter_amm_implementati.CpSwap.ConstantProduct.LpTokens.{
  IsFloorShare, IsCeilShare, lp_tokens_floor, lp_tokens_ceiling,
}
use jupiter_amm_implementati.CpSwap.Calculator.{FeeRates, lp_tokens_to_trading_tokens}
use jupiter_amm_implementati.CpSwap.Session.{
  execute, Pool, Action, trade, deposit, withdraw, act, act_all, IsPaid, AllPaid,
}
use jupiter_amm_implementati.CpSwap.Session.Solvency.{product, execute-product}

-- The product of the reserves over the square of the supply does not fall from `p` to `q`.
abbrev pub KeepsWorth : Pool → Pool → Type 0
KeepsWorth p q =
    product p.reserves * (q.supply * q.supply) ≤ product q.reserves * (p.supply * p.supply)

-- Each reserve over the supply does not fall, so neither does the product.
both_keep :
    (x y s x' y' s' : ℕ) → x * s' ≤ x' * s → y * s' ≤ y' * s → x * y * (s' * s') ≤ x' * y' * (s * s)
both_keep x y s x' y' s' h_0 h_1 =
    let both : (x * s') * (y * s') ≤ (x' * s) * (y' * s) = mul-le-mul h_0 h_1 in omega arith

worth_trans :
    (k s k' s' k'' s'' : ℕ) → 0 < s' → k * s' ≤ k' * s → k' * s'' ≤ k'' * s' → k * s'' ≤ k'' * s
worth_trans k s k' s' k'' s'' pos h h' =
    let first = mul-le-mul_right s'' h in
    let second = mul-le-mul_right s h' in
    let scaled : (k * s'') * s' ≤ (k'' * s) * s' = omega (arith, first, second) in
    le_of_mul-le-mul_right scaled pos

-- What a deposit costs covers the share, unless the share is below a unit.
deposit_covers :
    (lp supply reserve paid : ℕ)
    → IsCeilShare lp supply reserve paid
    → supply ≤ lp * reserve
    → reserve * (supply + lp) ≤ (reserve + paid) * supply
deposit_covers lp supply reserve paid (inl (small, _)) unit = absurd (omega arith)
deposit_covers lp supply reserve paid (inr (covers, _, _)) unit = omega arith

withdrawal_leaves :
    (lp supply reserve back : ℕ)
    → IsFloorShare lp supply reserve back
    → lp ≤ supply
    → reserve * (supply - lp) ≤ (reserve - back) * supply
withdrawal_leaves lp supply reserve back (pos, fits, value) part =
    let within : supply * back ≤ lp * reserve = rw value (mul-div-le (lp * reserve) supply) in
    omega (arith, mul-sub reserve supply lp, mul-sub supply reserve back, within)

-- There is no share of no supply.
no_share : (lp reserve paid : ℕ) → ¬ IsCeilShare lp 0 reserve paid
no_share lp reserve paid (inl (small, _)) = omega arith
no_share lp reserve paid (inr (covers, below, _)) = omega arith

zero_or_positive : (n : ℕ) → (n ≡ 0) ⊎ (0 < n)
zero_or_positive n = ground arith

abbrev bought : Pool → ℕ → TradingTokenResult → Pool
bought p lp paid = record {
  reserves = (p.reserves.0 + paid.token_0_amount, p.reserves.1 + paid.token_1_amount);
  supply = p.supply + lp;
}

abbrev given_back : Pool → ℕ → TradingTokenResult → Pool
given_back p lp back = record {
  reserves = (p.reserves.0 - back.token_0_amount, p.reserves.1 - back.token_1_amount);
  supply = p.supply - lp;
}

module _ (profile : Profile) (rates : FeeRates)
    (parts : rates.protocol_fee_rate + rates.fund_fee_rate ≤ fee_rate_denominator_value) where
  act-KeepsWorth :
      (action : Action) (p : Pool) {q : Pool}
      → IsPaid profile rates action p
      → act profile rates action p ≡ ok q
      → KeepsWorth p q
  unfolding act lp_tokens_to_trading_tokens
  act-KeepsWorth (trade order) p {q} paid h =
      >>=_elim (execute rates order p.reserves) _ h λ r e h_0.
        let grown = execute-product rates parts order p.reserves paid e in
        let same : q ≡ record { reserves = r; supply = p.supply } = cc (h_0) in
        rw same (mul-le-mul_right (p.supply * p.supply) grown)
  act-KeepsWorth (deposit lp) p {q} (unit_0, unit_1) h =
      >>=_elim (lp_tokens_to_trading_tokens profile lp p.supply p.reserves.0 p.reserves.1 ceiling) _
        h
        λ paid e h_0.
          let (share_0, share_1) =
            lp_tokens_ceiling profile lp p.supply p.reserves.0 p.reserves.1 e in
          let same : q ≡ bought p lp paid = cc (h_0) in
          rw same (
            both_keep p.reserves.0 p.reserves.1 p.supply _ _ (p.supply + lp)
              (deposit_covers lp p.supply p.reserves.0 _ share_0 unit_0)
              (deposit_covers lp p.supply p.reserves.1 _ share_1 unit_1))
  act-KeepsWorth (withdraw lp) p {q} paid h =
      >>=_elim (lp_tokens_to_trading_tokens profile lp p.supply p.reserves.0 p.reserves.1 floor) _ h
        λ back e h_0. >>=_elim (try (checked_sub p.supply lp)) _ h_0 λ supply e_1 h_1.
          let (share_0, share_1) =
            lp_tokens_floor profile lp p.supply p.reserves.0 p.reserves.1 e in
          let part : lp ≤ p.supply = ground arith in
          let rest : supply ≡ p.supply - lp = ground arith in
          let same : q ≡ given_back p lp back = cc (h_1, rest) in
          rw same (
            both_keep p.reserves.0 p.reserves.1 p.supply _ _ (p.supply - lp)
              (withdrawal_leaves lp p.supply p.reserves.0 _ share_0 part)
              (withdrawal_leaves lp p.supply p.reserves.1 _ share_1 part))

  -- A pool with no pool tokens out gets none.
  act_zero :
      (action : Action) (p : Pool) {q : Pool}
      → p.supply ≡ 0
      → act profile rates action p ≡ ok q
      → q.supply ≡ 0
  unfolding act lp_tokens_to_trading_tokens
  act_zero (trade order) p none_ h =
      >>=_elim (execute rates order p.reserves) _ h λ r e h_0. ground arith
  act_zero (deposit lp) p none_ h =
      >>=_elim (lp_tokens_to_trading_tokens profile lp p.supply p.reserves.0 p.reserves.1 ceiling) _
        h
        λ paid e h_0.
          let (share_0, _) = lp_tokens_ceiling profile lp p.supply p.reserves.0 p.reserves.1 e in
          absurd (no_share lp p.reserves.0 _ (rw none_ at share_0))
  act_zero (withdraw lp) p none_ h =
      >>=_elim (lp_tokens_to_trading_tokens profile lp p.supply p.reserves.0 p.reserves.1 floor) _ h
        λ back e h_0. >>=_elim (try (checked_sub p.supply lp)) _ h_0 λ supply e_1 h_1. ground arith

  act_all_zero :
      (actions : List Action) (p : Pool) {q : Pool}
      → p.supply ≡ 0
      → act_all profile rates actions p ≡ ok q
      → q.supply ≡ 0
  unfolding act_all
  act_all_zero [] p none_ h = ground arith
  act_all_zero (action ∷ actions) p none_ h =
      >>=_elim (act profile rates action p) _ h
        λ q e h_0. act_all_zero actions q (act_zero action p none_ e) h_0

  -- With a protocol rate and a fund rate that together are at most the denominator, and no charge
  -- that is rounded down to 0, any run of swaps, deposits and withdrawals keeps what a pool token
  -- stands for: the product of the reserves without the set-aside fees, over the square of the
  -- supply of pool tokens, does not fall.
  pub act_all-KeepsWorth :
      (actions : List Action) (p : Pool) {q : Pool}
      → AllPaid profile rates actions p
      → act_all profile rates actions p ≡ ok q
      → p.reserves.0 * p.reserves.1 * (q.supply * q.supply)
        ≤ q.reserves.0 * q.reserves.1 * (p.supply * p.supply)
  unfolding act_all
  act_all-KeepsWorth [] p paid h = ground arith
  act_all-KeepsWorth (action ∷ actions) p {q} (paid, rest) h =
      >>=_elim (act profile rates action p) _ h λ r e h_0.
        let first = act-KeepsWorth action p paid e in
        let second = act_all-KeepsWorth actions r (rest r e) h_0 in
        elim (zero_or_positive r.supply) [
          | inl none_ ↦ let empty = act_all_zero actions r none_ h_0 in rw empty (omega arith)
          | inr some_ ↦
              worth_trans (product p.reserves) (p.supply * p.supply) (product r.reserves)
                (r.supply * r.supply) (product q.reserves) (q.supply * q.supply)
                (mul-pos some_ some_) first second
        ]
