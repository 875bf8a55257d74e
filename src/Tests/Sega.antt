-- ===== src/Tests/Sega.antt =====
-- Runs of the Sega AMM on a concrete pool, without and with its updates.
use jupiter_amm_implementati.Base.{
  ℕ, ◌-◌, ◌^◌, ◌/◌, ◌%◌, ◌≤◌, ◌<◌, ◌≡◌, ◌≢◌, ◌⊎◌, ◌↔◌, refl, false, none, some, ok, err, panic,
  and_then, debug, arith,
}
use jupiter_amm_implementati.Chain
use jupiter_amm_implementati.Chain.{as_u64, SwapAndAccountMetas, raydium_cp}
use jupiter_amm_implementati.CpSwap.Fees.{trading_fee, protocol_fee, fund_fee}
use jupiter_amm_implementati.CpSwap.ConstantProduct.{swap_base_input_without_fees}
use jupiter_amm_implementati.CpSwap.Calculator.{SwapResult, swap_base_input}
use jupiter_amm_implementati.CpSwap.Pool.{get_status_by_bit}
use jupiter_amm_implementati.CpSwap.Swap.{SegaSwap, to_account_metas}
use jupiter_amm_implementati.Amms.Error.{token_0_mint_not_found, pool_is_not_trading}
use jupiter_amm_implementati.Amms.SegaAmm.{
  SegaAmm, from_keyed_account, get_authority, get_accounts_to_update,
}
use jupiter_amm_implementati.Amms.SegaAmm.Update.{update, get_mint, get_unfrozen_token_amount}
use jupiter_amm_implementati.Amms.SegaAmm.Update.Effect.{
  IsFresh, update-IsFresh, update_failed, Agree,
}
use jupiter_amm_implementati.Amms.SegaAmm.Update.Precise.{
  update_amm_precise, update_amm_precise-update,
}
use jupiter_amm_implementati.Amms.SegaAmm.Update.Reached.{
  Reached, created, updated, IsStaged, Reached-IsStaged,
}
use jupiter_amm_implementati.Amms.SegaAmm.Quote.{
  vault_amount_without_fee, is_closed, rates_of, reserves, fee_pct, after_transfer_fee,
  mint_transfer_fee_configs, finish, quote, quote_swap,
}
use jupiter_amm_implementati.Amms.SegaAmm.Quote.Guards.{quote_closed_iff}
use jupiter_amm_implementati.Amms.SegaAmm.Quote.Bounds.{quote_bounds, quote_panic}
use jupiter_amm_implementati.Amms.SegaAmm.Quote.Direction.{quote_source_is_token_0}
use jupiter_amm_implementati.Amms.SegaAmm.Metas.{get_swap_and_account_metas}
use jupiter_amm_implementati.Amms.SegaAmm.Metas.Order.{
  reversed, IsReverse, get_swap_and_account_metas_reverse,
}
use jupiter_amm_implementati.Tests.World.{
  ext, reads, keyed, accounts, more_accounts, lone_account, set_up, amm, mints, config, pool, clock,
  asked, swap_of,
}

created_ok : from_keyed_account ext keyed ≡ ok set_up
unfolding from_keyed_account
created_ok = refl

update_ok : update ext accounts set_up ≡ (ok tt, amm)
unfolding update get_mint get_unfrozen_token_amount
update_ok = refl

update_stops : (update ext lone_account amm).0 ≡ err token_0_mint_not_found
unfolding update get_mint get_unfrozen_token_amount
update_stops = refl

reached : Reached ext keyed amm
unfolding update get_mint get_unfrozen_token_amount
reached = updated set_up amm accounts (created set_up created_ok) refl

update_succeeds : (update ext accounts set_up).0 ≡ ok tt
unfolding update get_mint get_unfrozen_token_amount
update_succeeds = refl

update-IsFresh_example : IsFresh ext accounts set_up (update ext accounts set_up).1
update-IsFresh_example = update-IsFresh ext accounts set_up update_succeeds

-- An update that finds the pool but no mint, after one that went through.
update_failed_example :
    ((update ext lone_account amm).1.amm_config ≡ some config)
    × ((update ext lone_account amm).1.vault_0_amount ≡ some 1_000_040)
    × ((update ext lone_account amm).1.vault_1_amount ≡ some 2_000_060)
    × (((update ext lone_account amm).1.pool_state ≡ pool)
          × ((update ext lone_account amm).1.token_mints_and_token_programs ≡ some mints)
        ⊎ (and_then (ext.try_get_account_data lone_account 1) ext.deserialize_pool_state
            ≡ some (update ext lone_account amm).1.pool_state))
update_failed_example = update_failed ext lone_account amm token_0_mint_not_found update_stops

abbrev agree : Agree ext accounts more_accounts 1 pool
agree = record {
  own = refl;
  mint_0 = refl;
  mint_1 = refl;
  config = refl;
  vault_0 = refl;
  vault_1 = refl;
}

update_amm_precise-update_example :
    update_amm_precise ext (get_accounts_to_update ext) (update ext) more_accounts amm
    ≡ update ext more_accounts amm
update_amm_precise-update_example =
    update_amm_precise-update ext reads more_accounts amm pool refl
      (record { mint_0 = refl; mint_1 = refl; config = refl; vault_0 = refl; vault_1 = refl })

Reached-IsStaged_example : IsStaged ext keyed amm
Reached-IsStaged_example = Reached-IsStaged ext keyed reached

abbrev quoted : ℕ → Chain.Quote ℕ
quoted mint = record {
  in_amount = 10_000;
  out_amount = 19_752;
  fee_amount = 25;
  fee_mint = mint;
  fee_pct = 25;
}

reserves_ok : reserves ext debug amm ≡ ok (1_000_000, 2_000_000)
unfolding reserves vault_amount_without_fee
reserves_ok = refl

quote_0 : quote ext debug clock amm (asked 5 10_000) ≡ ok (quoted 5)
unfolding quote quote_swap swap_base_input trading_fee protocol_fee fund_fee
    swap_base_input_without_fees vault_amount_without_fee get_status_by_bit is_closed
    after_transfer_fee mint_transfer_fee_configs fee_pct reserves finish
quote_0 = refl

quote_1 : quote ext debug clock amm (asked 6 10_000) ≡ ok (quoted 6)
unfolding quote quote_swap swap_base_input trading_fee protocol_fee fund_fee
    swap_base_input_without_fees vault_amount_without_fee get_status_by_bit is_closed
    after_transfer_fee mint_transfer_fee_configs fee_pct reserves finish
quote_1 = refl

is_open : is_closed pool clock ≡ false
unfolding is_closed get_status_by_bit
is_open = refl

quote_bounds_example :
    (0 < 10_000)
    × (10_000 ≤ 10_000)
    × (25 ≤ 10_000)
    × (19_752 ≤ 2_000_000)
    × (19_752 ≤ 2 ^ 64 - 1)
    × ((quoted 5).fee_mint ≡ 5)
quote_bounds_example =
    quote_bounds ext debug clock amm config 1_000_000 2_000_000 (asked 5 10_000) {q = quoted 5}
      (omega arith) refl (omega arith) reserves_ok quote_0

quote_closed_iff_example :
    (quote ext debug clock amm (asked 5 10_000) ≡ err pool_is_not_trading)
    ↔ ((0 / 4 % 2 ≡ 1) ⊎ (1_000 < 100))
quote_closed_iff_example = quote_closed_iff ext debug clock amm (asked 5 10_000) (omega arith)

-- Asked for token 1, the same swap.
quote_source_is_token_0_example :
    (r : SwapResult) × (swap_base_input 10_000 1_000_000 2_000_000 (rates_of config) ≡ ok r)
    × (10_000 ≡ r.source_amount_swapped)
    × (19_752 ≡ r.destination_amount_swapped)
    × (25 ≡ r.trade_fee)
quote_source_is_token_0_example =
    quote_source_is_token_0 ext debug clock amm mints config 1_000_000 2_000_000 (asked 6 10_000)
      {q = quoted 6} refl (refl, refl) refl reserves_ok quote_1

-- The pool with nothing left in the vault of token 0 but the fees that it owes.
abbrev drained : SegaAmm ext
drained = record amm { vault_0_amount = some 40 }

reserves_drained : reserves ext debug drained ≡ ok (0, 2_000_000)
unfolding reserves vault_amount_without_fee
reserves_drained = refl

all_fee : trading_fee 1 2_500 ≡ ok 1
unfolding trading_fee
all_fee = refl

quote_panic_example : quote ext debug clock drained (asked 5 1) ≡ panic
quote_panic_example =
    quote_panic ext debug clock drained config mints 2_000_000 (asked 5 1) is_open refl
      (omega arith) (omega arith) refl (refl, refl) reserves_drained (omega arith) (omega arith)
      all_fee

abbrev accounts_of : SegaSwap → SwapAndAccountMetas
accounts_of s = record { swap = raydium_cp; account_metas = to_account_metas s none }

abbrev forth : SegaSwap
forth = record {
  program = amm.program_id;
  payer = 70;
  authority = 99;
  amm_config = 2;
  pool_state = 1;
  input_token_account = 80;
  output_token_account = 81;
  input_vault = 3;
  output_vault = 4;
  input_token_program = 7;
  output_token_program = 7;
  input_token_mint = 5;
  output_token_mint = 6;
  observation_state = 8;
}

metas_forth : get_swap_and_account_metas ext amm (swap_of 5 6 80 81) ≡ ok (accounts_of forth)
unfolding get_swap_and_account_metas get_authority
metas_forth = refl

abbrev is_reverse : IsReverse (swap_of 5 6 80 81) (swap_of 6 5 81 80)
is_reverse = record {
  source_mint = refl;
  source_account = refl;
  destination_account = refl;
  authority = refl;
}

different : pool.token_0_mint ≢ pool.token_1_mint
different h = omega arith

get_swap_and_account_metas_reverse_example :
    (s : SegaSwap) × ((accounts_of forth).account_metas ≡ to_account_metas s none)
    × (get_swap_and_account_metas ext amm (swap_of 6 5 81 80)
        ≡ ok (record (accounts_of forth) { account_metas = to_account_metas (reversed s) none }))
get_swap_and_account_metas_reverse_example =
    get_swap_and_account_metas_reverse ext amm (swap_of 5 6 80 81) (swap_of 6 5 81 80)
      (accounts_of forth) different refl refl is_reverse metas_forth
