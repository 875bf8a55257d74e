-- ===== src/Tests/Host.antt =====
-- The host's calls on the concrete pool: a set-up, an update and then a quote.
use jupiter_amm_implementati.Base.{
  ℕ, ◌≤◌, ◌≢◌, panic, ◌≡◌, refl, false, some, [], ◌∷◌, u64_max, ok, debug, arith,
}
use jupiter_amm_implementati.Chain
use jupiter_amm_implementati.Chain.{Bytes, QuoteParams}
use jupiter_amm_implementati.CpSwap.AmmConfig.{AmmConfig}
use jupiter_amm_implementati.CpSwap.Pool.{PoolState, get_status_by_bit}
use jupiter_amm_implementati.Amms.Host.{IsSolvent, update-quote_total}
use jupiter_amm_implementati.Amms.Host.Panics.{IsCovered, Reached-quote-ne-panic}
use jupiter_amm_implementati.Amms.SegaAmm.{from_keyed_account}
use jupiter_amm_implementati.Amms.SegaAmm.Update.{update, get_mint, get_unfrozen_token_amount}
use jupiter_amm_implementati.Amms.SegaAmm.Update.Reached.{Reached, created, updated}
use jupiter_amm_implementati.Amms.SegaAmm.Update.Typed.{ReadsTyped, IsTypedPool, IsTypedConfig}
use jupiter_amm_implementati.Amms.SegaAmm.Quote.{is_closed, quote}
use jupiter_amm_implementati.Tests.World.{
  pct_ok, ext, keyed, accounts, set_up, amm, mints, config, pool, clock, asked,
}

pool_typed : IsTypedPool pool
pool_typed = record {
  auth_bump = omega arith;
  status = omega arith;
  protocol_fees_token_0 = omega arith;
  protocol_fees_token_1 = omega arith;
  fund_fees_token_0 = omega arith;
  fund_fees_token_1 = omega arith;
  open_time = omega arith;
}

config_typed : IsTypedConfig config
config_typed = record {
  trade_fee_rate = omega arith;
  protocol_fee_rate = omega arith;
  fund_fee_rate = omega arith;
}

reads_pool :
    (bytes : Bytes) (p : PoolState) → ext.deserialize_pool_state bytes ≡ some p → IsTypedPool p
reads_pool [] p h = absurd (cc (h))
reads_pool (b ∷ bytes) p h = let same : p ≡ pool = cc (h) in rw same pool_typed

reads_config :
    (bytes : Bytes) (c : AmmConfig) → ext.deserialize_amm_config bytes ≡ some c → IsTypedConfig c
reads_config [] c h = absurd (cc (h))
reads_config (b ∷ bytes) c h = let same : c ≡ config = cc (h) in rw same config_typed

reads_token_account :
    (bytes : Bytes) (account : Chain.TokenAccount)
    → ext.unpack_token_account bytes ≡ some account
    → account.amount ≤ u64_max
reads_token_account [] account h = absurd (cc (h))
reads_token_account (n ∷ bytes) account h = ground arith

abbrev reads_typed : ReadsTyped ext
reads_typed = record {
  pool = reads_pool;
  config = reads_config;
  token_account = reads_token_account;
}

reached : Reached ext keyed amm
unfolding from_keyed_account update get_mint get_unfrozen_token_amount
reached = updated set_up amm accounts (created set_up refl) refl

update_again : update ext accounts amm ≡ (ok tt, amm)
unfolding update get_mint get_unfrozen_token_amount
update_again = refl

vault_0 : get_unfrozen_token_amount ext accounts 3 ≡ some 1_000_040
unfolding get_unfrozen_token_amount
vault_0 = refl

vault_1 : get_unfrozen_token_amount ext accounts 4 ≡ some 2_000_060
unfolding get_unfrozen_token_amount
vault_1 = refl

is_open : is_closed pool clock ≡ false
unfolding is_closed get_status_by_bit
is_open = refl

abbrev solvent : IsSolvent pool 1_000_040 2_000_060
solvent = record { owed_0 = omega arith; owed_1 = omega arith }

update-quote_total_example :
    (q : Chain.Quote ℕ) × (quote ext debug clock amm (asked 5 10_000) ≡ ok q)
update-quote_total_example =
    update-quote_total ext keyed debug clock accounts amm amm config mints 1_000_040 2_000_060 0
      (asked 5 10_000) reads_typed pct_ok reached update_again vault_0 vault_1 solvent is_open refl
      (omega arith) refl (λ amount small. (0, refl)) refl (omega arith) (omega arith)

covered : IsCovered ext amm
covered v_0 v_1 h_0 h_1 =
    let same_0 : v_0 ≡ 1_000_040 = cc (h_0) in
    let same_1 : v_1 ≡ 2_000_060 = cc (h_1) in rw (same_0, same_1) solvent

Reached-quote-ne-panic_example : quote ext debug clock amm (asked 6 1_000_000) ≢ panic
Reached-quote-ne-panic_example =
    Reached-quote-ne-panic ext pct_ok keyed debug clock (asked 6 1_000_000) reads_typed reached
      covered (omega arith)

pub never_panics :
    (params : QuoteParams) → params.amount ≤ u64_max → quote ext debug clock amm params ≢ panic
never_panics params small =
    Reached-quote-ne-panic ext pct_ok keyed debug clock params reads_typed reached covered small
