-- ===== src/Tests/Liquidity.antt =====
-- A pool with deposits and withdrawals, on a concrete run.
use jupiter_amm_implementati.Base.{
  ◌*◌, ◌≤◌, ◌≡◌, refl, true, List, [], ◌∷◌, ok, debug, release, arith,
}
use jupiter_amm_implementati.CpSwap.Fees.{trading_fee, protocol_fee, fund_fee}
use jupiter_amm_implementati.CpSwap.ConstantProduct.{
  floor, ceiling, swap_base_input_without_fees, TradingTokenResult,
}
use jupiter_amm_implementati.CpSwap.ConstantProduct as ConstantProduct
use jupiter_amm_implementati.CpSwap.Calculator.{lp_tokens_to_trading_tokens, swap_base_input}
use jupiter_amm_implementati.CpSwap.ConstantProduct.DepositWithdraw.{lp_tokens_there_and_back}
use jupiter_amm_implementati.CpSwap.Session.{
  exact_in, execute, swap, Pool, Action, trade, deposit, withdraw, act, act_all, AllPaid,
}
use jupiter_amm_implementati.CpSwap.Session.Liquidity.{act_all-KeepsWorth}
use jupiter_amm_implementati.Tests.World.{rates}

abbrev paid : TradingTokenResult
paid = record { token_0_amount = 4; token_1_amount = 3 }

abbrev back : TradingTokenResult
back = record { token_0_amount = 3; token_1_amount = 2 }

bought : ConstantProduct.lp_tokens_to_trading_tokens release 1 3 10 7 ceiling ≡ ok paid
unfolding ConstantProduct.lp_tokens_to_trading_tokens
bought = refl

given_back : ConstantProduct.lp_tokens_to_trading_tokens release 1 4 14 10 floor ≡ ok back
unfolding ConstantProduct.lp_tokens_to_trading_tokens
given_back = refl

lp_tokens_there_and_back_example : (3 ≤ 4) × (2 ≤ 3)
lp_tokens_there_and_back_example =
    lp_tokens_there_and_back release 1 3 10 7 {paid = paid} {back = back} bought given_back

abbrev start : Pool
start = record { reserves = (1_000_000, 2_000_000); supply = 1_000 }

abbrev actions : List Action
actions = deposit 7 ∷ trade (exact_in true 10_000) ∷ withdraw 7 ∷ []

abbrev end : Pool
end = record { reserves = (1_009_927, 1_980_384); supply = 1_000 }

act_all_ok : act_all debug rates actions start ≡ ok end
unfolding act_all act execute swap swap_base_input trading_fee protocol_fee fund_fee
    swap_base_input_without_fees lp_tokens_to_trading_tokens
    ConstantProduct.lp_tokens_to_trading_tokens
act_all_ok = refl

all_paid : AllPaid debug rates actions start
all_paid = ((omega arith, omega arith), λ q e. (tt, λ q' e'. (tt, λ _ _. tt)))

act_all-KeepsWorth_example :
    1_000_000 * 2_000_000 * (1_000 * 1_000) ≤ 1_009_927 * 1_980_384 * (1_000 * 1_000)
act_all-KeepsWorth_example =
    act_all-KeepsWorth debug rates (omega arith) actions start {q = end} all_paid act_all_ok
