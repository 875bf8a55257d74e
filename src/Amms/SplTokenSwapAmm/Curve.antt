-- ===== src/Amms/SplTokenSwapAmm/Curve.antt =====
-- jupiter-core/src/math: the fees and the call of the swap curve of spl_token_swap. The curve, its
-- fees and the account formats are that crate's: parameters here.
use jupiter_amm_implementati.Base.{
  ℕ, Bool, Option, Outcome, Partial, ok, try, context, context_partial, ◌>>=◌, Profile, plain_add,
  u128_max, ltb, if◌then◌else◌,
}
use jupiter_amm_implementati.Chain.{Pubkey, Bytes, TokenAccount, Decimals}
use jupiter_amm_implementati.Amms.Error.{Error, quote_failed, fee_pct_failed}

-- The fields of `spl_token_swap::curve::fees::Fees` that are read.
pub record TokenSwapFees : Type 0 where
  pub trade_fee_numerator : ℕ
  pub trade_fee_denominator : ℕ
  pub owner_trade_fee_numerator : ℕ
  pub owner_trade_fee_denominator : ℕ

pub data TradeDirection : Type 0 where
  a_to_b b_to_a : TradeDirection

-- The fields of the curve's own result that are read.
pub record CurveResult : Type 0 where
  pub source_amount_swapped : ℕ
  pub destination_amount_swapped : ℕ
  pub trade_fee : ℕ
  pub owner_fee : ℕ

-- `spl_token_swap::curve::base::SwapCurve`, over the types of its two fields.
pub record SwapCurve (T C : Type 0) : Type 0 where
  pub curve_type : T
  pub calculator : C

-- `spl_token_swap::state::SwapV1`, over the type of its curve.
pub record SwapState (C : Type 0) : Type 0 where
  pub is_initialized : Bool
  pub bump_seed : ℕ
  pub token_program_id : Pubkey
  pub token_a : Pubkey
  pub token_b : Pubkey
  pub pool_mint : Pubkey
  pub token_a_mint : Pubkey
  pub token_b_mint : Pubkey
  pub pool_fee_account : Pubkey
  pub fees : TokenSwapFees
  pub swap_curve : C

pub record TokenSwapLib : Type 1 where
  -- The types of a curve's kind and of its boxed calculator, and how the calculator and the fees are
  -- cloned.
  pub CurveType : Type 0
  pub Calculator : Type 0
  pub clone_calculator : Calculator → Calculator
  pub clone_fees : TokenSwapFees → TokenSwapFees
  -- `SwapV1::unpack` and `spl_token::state::Account::unpack`.
  pub unpack_swap : Bytes → Option (SwapState (SwapCurve CurveType Calculator))
  pub unpack_token_account : Bytes → Option TokenAccount
  -- `SwapCurve::swap`
  pub swap :
      SwapCurve CurveType Calculator
      → ℕ
      → ℕ
      → ℕ
      → TradeDirection
      → TokenSwapFees
      → Option CurveResult
  -- `Pubkey::to_bytes`, and the address of the token program.
  pub key_bytes : Pubkey → Bytes
  pub token_program_id : Pubkey

abbrev pub CurveOf : TokenSwapLib → Type 0
CurveOf lib = SwapCurve lib.CurveType lib.Calculator

abbrev pub SwapV1 : TokenSwapLib → Type 0
SwapV1 lib = SwapState (CurveOf lib)

-- math/fees.rs: the wrapper `Fees` of jupiter-core, which keeps the four trade fee fields.
unfoldable pub new : ℕ → ℕ → ℕ → ℕ → TokenSwapFees
new trade_fee_numerator trade_fee_denominator owner_numerator owner_denominator = record {
  trade_fee_numerator = trade_fee_numerator;
  trade_fee_denominator = trade_fee_denominator;
  owner_trade_fee_numerator = owner_numerator;
  owner_trade_fee_denominator = owner_denominator;
}

-- math/token_swap.rs
pub record SwapResult (D : Type 0) : Type 0 where
  pub fee_pct : D
  pub fees : ℕ
  pub input_amount : ℕ
  pub expected_output_amount : ℕ

module _ (d : Decimals) where
  open d use {D, nought, from_u64, checked_add, checked_div}

  -- One of the two quotients of `fee_pct`; a denominator of 0 stands for no fee.
  part_pct : ℕ → ℕ → Partial D
  part_pct numerator denominator =
      if ltb 0 denominator
      then (do n ← try (from_u64 numerator); m ← try (from_u64 denominator); try (checked_div n m))
      else ok nought

  unfoldable pub fee_pct : TokenSwapFees → Partial D
  unfolding part_pct
  fee_pct fees = do
    trade_fee_pct ← part_pct fees.trade_fee_numerator fees.trade_fee_denominator
    owner_trade_fee_pct ← part_pct fees.owner_trade_fee_numerator fees.owner_trade_fee_denominator
    try (checked_add trade_fee_pct owner_trade_fee_pct)

  -- math/swap_curve_info.rs
  unfoldable pub get_swap_curve_result :
      (lib : TokenSwapLib)
      → Profile
      → CurveOf lib
      → ℕ
      → ℕ
      → ℕ
      → TradeDirection
      → TokenSwapFees
      → Outcome Error (SwapResult D)
  unfolding fee_pct new
  get_swap_curve_result lib profile swap_curve amount source destination direction fees = do
    curve_result ←
        context (lib.swap swap_curve amount source destination direction fees) quote_failed
    let kept =
        new fees.trade_fee_numerator fees.trade_fee_denominator fees.owner_trade_fee_numerator
          fees.owner_trade_fee_denominator
    pct ← context_partial (fee_pct kept) fee_pct_failed
    total ← plain_add profile u128_max curve_result.trade_fee curve_result.owner_fee
    ok (record {
      fee_pct = pct;
      fees = total;
      input_amount = curve_result.source_amount_swapped;
      expected_output_amount = curve_result.destination_amount_swapped;
    })
