-- ===== src/CpSwap/Session.antt =====
-- Runs of `CurveCalculator` (sega-cp-swap/src/calculator.rs) in a row on one pool: every swap starts
-- from the reserves that the one before left, less the protocol's and the fund's parts of its fee,
-- as `vault_amount_without_fee` (sega-cp-swap/src/pool.rs) leaves them out. The pool tokens of a
-- deposit are bought at the price of `lp_tokens_to_trading_tokens` rounded up, those of a withdrawal
-- are given back at the price rounded down.
pub mod Solvency
pub mod Liquidity
pub mod Splitting
pub mod Impact
use jupiter_amm_implementati.Base.{
  ℕ, ◌+◌, ◌-◌, ◌*◌, ◌≤◌, Bool, true, false, List, [], ◌∷◌, Partial, ok, ◌>>=◌, Profile, try,
  checked_sub, if◌then◌else◌, is_ok, ◌≡◌,
}
use jupiter_amm_implementati.CpSwap.ConstantProduct.{floor, ceiling}
use jupiter_amm_implementati.CpSwap.Calculator.{
  lp_tokens_to_trading_tokens, SwapResult, FeeRates, swap_base_input, swap_base_output,
}

-- The reserves of token 0 and of token 1.
abbrev pub Reserves : Type 0
Reserves = ℕ × ℕ

-- A swap of an exact input or for an exact output, and whether token 0 is its source.
pub data Order : Type 0 where
  exact_in : Bool → ℕ → Order
  exact_out : Bool → ℕ → Order

-- The source and the destination, and back.
abbrev pub turn : Bool → Reserves → Reserves
turn true p = p
turn false p = (p.1, p.0)

abbrev pub reserves_after : SwapResult → Reserves
reserves_after r =
    (r.new_swap_source_amount - (r.protocol_fee + r.fund_fee), r.new_swap_destination_amount)

module _ (rates : FeeRates) where
  unfoldable pub swap : Order → Reserves → Partial SwapResult
  swap (exact_in zero_for_one amount) p =
      swap_base_input amount (turn zero_for_one p).0 (turn zero_for_one p).1 rates
  swap (exact_out zero_for_one amount) p =
      swap_base_output amount (turn zero_for_one p).0 (turn zero_for_one p).1 rates

  abbrev pub side : Order → Bool
  side (exact_in zero_for_one _) = zero_for_one
  side (exact_out zero_for_one _) = zero_for_one

  unfoldable pub execute : Order → Reserves → Partial Reserves
  execute order p = do r ← swap order p; ok (turn (side order) (reserves_after r))

  -- The orders one after the other; the first that has no result ends the run.
  unfoldable pub run : List Order → Reserves → Partial Reserves
  run [] p = ok p
  run (order ∷ orders) p = execute order p >>= run orders

  -- An exact output is not so small that its charge is rounded to 0.
  abbrev pub IsCharged : Order → Reserves → Type 0
  IsCharged (exact_in _ _) p = Unit
  IsCharged (exact_out zero_for_one amount) p =
      (turn zero_for_one p).1 - amount ≤ (turn zero_for_one p).0 * amount * 2

  -- So for every order of a run, at the reserves that it meets.
  abbrev pub AllCharged : List Order → Reserves → Type 0
  AllCharged [] p = Unit
  AllCharged (order ∷ orders) p =
      IsCharged order p × ((q : Reserves) → execute order p ≡ ok q → AllCharged orders q)

-- The reserves and the pool tokens that are out.
pub record Pool : Type 0 where
  pub reserves : Reserves
  pub supply : ℕ

pub data Action : Type 0 where
  trade : Order → Action
  deposit : ℕ → Action
  withdraw : ℕ → Action

module _ (profile : Profile) (rates : FeeRates) where
  unfoldable pub act : Action → Pool → Partial Pool
  act (trade order) p = do
    reserves ← execute rates order p.reserves
    ok (record { reserves = reserves; supply = p.supply })
  act (deposit lp) p = do
    paid ← lp_tokens_to_trading_tokens profile lp p.supply p.reserves.0 p.reserves.1 ceiling
    ok (record {
      reserves = (p.reserves.0 + paid.token_0_amount, p.reserves.1 + paid.token_1_amount);
      supply = p.supply + lp;
    })
  act (withdraw lp) p = do
    back ← lp_tokens_to_trading_tokens profile lp p.supply p.reserves.0 p.reserves.1 floor
    supply ← try (checked_sub p.supply lp)
    ok (record {
      reserves = (p.reserves.0 - back.token_0_amount, p.reserves.1 - back.token_1_amount);
      supply = supply;
    })

  unfoldable pub act_all : List Action → Pool → Partial Pool
  act_all [] p = ok p
  act_all (action ∷ actions) p = act action p >>= act_all actions

  -- No charge is rounded down to 0: a deposit is worth a unit of each token at least.
  abbrev pub IsPaid : Action → Pool → Type 0
  IsPaid (trade order) p = IsCharged rates order p.reserves
  IsPaid (deposit lp) p = (p.supply ≤ lp * p.reserves.0) × (p.supply ≤ lp * p.reserves.1)
  IsPaid (withdraw lp) p = Unit

  abbrev pub AllPaid : List Action → Pool → Type 0
  AllPaid [] p = Unit
  AllPaid (action ∷ actions) p =
      IsPaid action p × ((q : Pool) → act action p ≡ ok q → AllPaid actions q)
