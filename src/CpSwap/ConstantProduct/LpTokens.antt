-- ===== src/CpSwap/ConstantProduct/LpTokens.antt =====
-- Lemmas on `lp_tokens_to_trading_tokens` (sega-cp-swap/src/constant_product.rs).
use native.Mathlib.Nat.{div-add-mod', mod-lt}
use jupiter_amm_implementati.Base.{
  ℕ, zero, suc, ◌+◌, ◌*◌, ◌/◌, ◌%◌, ◌≤◌, ◌<◌, ◌≡◌, ◌⊎◌, inl, inr, Profile, debug, release, ok,
  u128_max, arith, refl, is_ok, true, is_ok→value, >>=_elim,
}
use jupiter_amm_implementati.CpSwap.ConstantProduct.{
  RoundDirection, floor, ceiling, TradingTokenResult, floor_share, ceiling_share,
  lp_tokens_to_trading_tokens,
}

-- `part` is `lp * reserve / supply`, rounded down.
abbrev pub IsFloorShare : ℕ → ℕ → ℕ → ℕ → Type 0
IsFloorShare lp supply reserve part =
    (0 < supply) × (lp * reserve ≤ u128_max) × (part ≡ lp * reserve / supply)

-- `part` is `lp * reserve / supply`, rounded up, but 0 where it is less than 1.
abbrev pub IsCeilShare : ℕ → ℕ → ℕ → ℕ → Type 0
IsCeilShare lp supply reserve part =
    (lp * reserve < supply) × (part ≡ 0)
    ⊎ (lp * reserve ≤ part * supply) × (part * supply < lp * reserve + supply) × (0 < part)

floor_share_value :
    (lp supply reserve : ℕ) {part : ℕ}
    → floor_share lp supply reserve ≡ ok part
    → IsFloorShare lp supply reserve part
unfolding floor_share
floor_share_value lp supply reserve h = ground arith

-- The `+= 1` never overflows, in a debug build or a release build.
ceiling_share_value :
    (profile : Profile) (lp supply reserve part : ℕ) {raised : ℕ}
    → IsFloorShare lp supply reserve part
    → ceiling_share profile lp supply reserve part ≡ ok raised
    → ((lp * reserve % supply ≡ 0) ⊎ (part ≡ 0)) × (raised ≡ part)
      ⊎ (0 < lp * reserve % supply) × (0 < part) × (raised ≡ part + 1)
unfolding ceiling_share
ceiling_share_value debug lp supply reserve part (pos, fits, value) h = ground arith
ceiling_share_value release lp supply reserve part (pos, fits, value) h = ground arith

-- The two ways to leave or raise a quotient `part` with the remainder `rest`.
raise_bounds :
    (n supply part rest raised : ℕ)
    → part * supply + rest ≡ n
    → rest < supply
    → ((rest ≡ 0) ⊎ (part ≡ 0)) × (raised ≡ part) ⊎ (0 < rest) × (0 < part) × (raised ≡ part + 1)
    → (n < supply) × (raised ≡ 0)
      ⊎ (n ≤ raised * supply) × (raised * supply < n + supply) × (0 < raised)
raise_bounds n supply zero rest raised whole low h = ground arith
raise_bounds n supply (suc part) rest raised whole low (inl (inl even, e)) =
    inr (rw e (omega arith))
raise_bounds n supply (suc part) rest raised whole low (inl (inr small, e)) = absurd (omega arith)
raise_bounds n supply (suc part) rest raised whole low (inr (odd, pos, e)) =
    inr (rw e (omega arith))

ceiling_share-IsCeilShare :
    (profile : Profile) (lp supply reserve part : ℕ) {raised : ℕ}
    → IsFloorShare lp supply reserve part
    → ceiling_share profile lp supply reserve part ≡ ok raised
    → IsCeilShare lp supply reserve raised
ceiling_share-IsCeilShare profile lp supply reserve part {raised} floored h =
    let (pos, fits, value) = floored in
    let n = lp * reserve in
    raise_bounds n supply part (n % supply) raised (rw value (div-add-mod' n supply)) (mod-lt n pos)
      (ceiling_share_value profile lp supply reserve part floored h)

module _ (profile : Profile) (lp supply reserve_0 reserve_1 : ℕ) {result : TradingTokenResult} where
  -- Rounded down, both amounts are the exact shares.
  pub lp_tokens_floor :
      lp_tokens_to_trading_tokens profile lp supply reserve_0 reserve_1 floor ≡ ok result
      → IsFloorShare lp supply reserve_0 result.token_0_amount
        × IsFloorShare lp supply reserve_1 result.token_1_amount
  unfolding lp_tokens_to_trading_tokens
  lp_tokens_floor h = ground arith

  -- Rounded up, each amount covers its share, except that a share below 1 becomes 0.
  pub lp_tokens_ceiling :
      lp_tokens_to_trading_tokens profile lp supply reserve_0 reserve_1 ceiling ≡ ok result
      → IsCeilShare lp supply reserve_0 result.token_0_amount
        × IsCeilShare lp supply reserve_1 result.token_1_amount
  unfolding lp_tokens_to_trading_tokens
  lp_tokens_ceiling h = >>=_elim (floor_share lp supply reserve_0) _ h λ part_0 e_0 h_0.
      >>=_elim (floor_share lp supply reserve_1) _ h_0 λ part_1 e_1 h_1.
        >>=_elim (ceiling_share profile lp supply reserve_0 part_0) _ h_1 λ up_0 u_0 h_2.
          >>=_elim (ceiling_share profile lp supply reserve_1 part_1) _ h_2 λ up_1 u_1 h_3.
            let floored_0 = floor_share_value lp supply reserve_0 e_0 in
            let floored_1 = floor_share_value lp supply reserve_1 e_1 in
            let ceiled_0 =
              ceiling_share-IsCeilShare profile lp supply reserve_0 part_0 floored_0 u_0 in
            let ceiled_1 =
              ceiling_share-IsCeilShare profile lp supply reserve_1 part_1 floored_1 u_1 in
            let same_0 : up_0 ≡ result.token_0_amount = ground arith in
            let same_1 : up_1 ≡ result.token_1_amount = ground arith in
            (rw same_0 at ceiled_0, rw same_1 at ceiled_1)

ceiling_share_total :
    (profile : Profile) (lp supply reserve part : ℕ)
    → IsFloorShare lp supply reserve part
    → is_ok (ceiling_share profile lp supply reserve part) ≡ true
unfolding ceiling_share
ceiling_share_total debug lp supply reserve part (pos, fits, value) = ground arith
ceiling_share_total release lp supply reserve part (pos, fits, value) = ground arith

floor_share_total :
    (lp supply reserve : ℕ)
    → 0 < supply
    → lp * reserve ≤ u128_max
    → floor_share lp supply reserve ≡ ok (lp * reserve / supply)
unfolding floor_share
floor_share_total lp supply reserve pos fits = ground arith

-- With a supply and two products that fit, both ways of rounding give a result in every build.
pub lp_tokens_total :
    (profile : Profile) (lp supply reserve_0 reserve_1 : ℕ) (direction : RoundDirection)
    → 0 < supply
    → lp * reserve_0 ≤ u128_max
    → lp * reserve_1 ≤ u128_max
    → is_ok (lp_tokens_to_trading_tokens profile lp supply reserve_0 reserve_1 direction) ≡ true
unfolding lp_tokens_to_trading_tokens
lp_tokens_total profile lp supply r_0 r_1 floor pos fits_0 fits_1 =
    rw (floor_share_total lp supply r_0 pos fits_0, floor_share_total lp supply r_1 pos fits_1)
lp_tokens_total profile lp supply r_0 r_1 ceiling pos fits_0 fits_1 =
    let e_0 = floor_share_total lp supply r_0 pos fits_0 in
    let e_1 = floor_share_total lp supply r_1 pos fits_1 in
    let (up_0, u_0) =
      is_ok→value (ceiling_share profile lp supply r_0 (lp * r_0 / supply))
        (ceiling_share_total profile lp supply r_0 _ (pos, fits_0, refl)) in
    let (up_1, u_1) =
      is_ok→value (ceiling_share profile lp supply r_1 (lp * r_1 / supply))
        (ceiling_share_total profile lp supply r_1 _ (pos, fits_1, refl)) in
    rw (e_0, e_1, u_0, u_1)
