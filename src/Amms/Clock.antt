-- ===== src/Amms/Clock.antt =====
-- The clock that a `SegaAmm` shares with its host (jupiter-core/src/amms/sega_amm.rs): two atomics,
-- `epoch` and `timestamp`, that `quote` loads with `Ordering::Relaxed` while the host stores to them.
-- Relaxed loads of two atomics are not ordered: each returns a value that its atomic has held,
-- whatever the other returns. A thread is a program of loads; `quote` loads each atomic at most once.
pub mod Torn
pub mod Moment
use jupiter_amm_implementati.Base.{
  ℕ, ◌≤◌, Option, none, some, Outcome, err, Profile, not, ltb, if◌then◌else◌,
}
use jupiter_amm_implementati.Chain
use jupiter_amm_implementati.Chain.{ℤ, ClockRef, QuoteParams, as_u64}
use jupiter_amm_implementati.CpSwap.AmmConfig.{AmmConfig}
use jupiter_amm_implementati.CpSwap.Pool.{PoolState, PoolStatusBitIndex, get_status_by_bit}
use jupiter_amm_implementati.CpSwap.Calculator.{swap_base_input}
use jupiter_amm_implementati.Amms.Error.{
  Error, pool_is_not_trading, missing_amm_config, missing_token_mints, amount_too_low, swap_failed,
}
use jupiter_amm_implementati.Amms.External.{External}
use jupiter_amm_implementati.Amms.SegaAmm.{SegaAmm, TokenMints}
use jupiter_amm_implementati.Amms.SegaAmm.Quote.{quote_swap}

-- A thread that loads the two atomics and returns.
pub data Thread (A : Type 0) : Type 0 where
  returns : A → Thread A
  load_timestamp : (ℤ → Thread A) → Thread A
  load_epoch : (ℕ → Thread A) → Thread A

-- A run of the thread. `Held` is true of the clocks that the host's stores make, one after the
-- other; each load returns its part of any of them.
pub data Run (Held : ClockRef → Type 0) {A : Type 0} (result : A) : Thread A → Type 0 where
  done : Run Held result (returns result)
  timestamp_loaded :
      (moment : ClockRef) (k : ℤ → Thread A)
      → Held moment
      → Run Held result (k moment.unix_timestamp)
      → Run Held result (load_timestamp k)
  epoch_loaded :
      (moment : ClockRef) (k : ℕ → Thread A)
      → Held moment
      → Run Held result (k moment.epoch)
      → Run Held result (load_epoch k)

module _ (ext : External) (profile : Profile) (self : SegaAmm ext) (params : QuoteParams) where
  -- `quote` from where the pool is found open, with the timestamp that was loaded: the epoch is loaded
  -- once the config and the mints are there.
  quote_open :
      ℤ
      → Option AmmConfig
      → Option (TokenMints ext)
      → Thread (Outcome Error (Chain.Quote ext.decimals.D))
  quote_open timestamp none mints = returns (err missing_amm_config)
  quote_open timestamp (some amm_config) none = returns (err missing_token_mints)
  quote_open timestamp (some amm_config) (some mints) = load_epoch λ epoch. returns (
      quote_swap ext profile (record { epoch = epoch; unix_timestamp = timestamp }) self params
        amm_config mints)

  -- `quote` as a thread: the timestamp is loaded only if the pool's status allows swaps.
  unfoldable pub quote_thread : Thread (Outcome Error (Chain.Quote ext.decimals.D))
  unfolding quote_open
  quote_thread =
      if not (get_status_by_bit self.pool_state PoolStatusBitIndex.swap)
      then returns (err pool_is_not_trading)
      else load_timestamp λ timestamp.
        if ltb (as_u64 timestamp) self.pool_state.open_time
        then returns (err pool_is_not_trading)
        else quote_open timestamp self.amm_config self.token_mints_and_token_programs
