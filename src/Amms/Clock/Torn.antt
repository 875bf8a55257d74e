-- ===== src/Amms/Clock/Torn.antt =====
-- Lemmas on quotes whose two relaxed loads of the shared clock return parts of different moments
-- (jupiter-core/src/amms/sega_amm.rs).
use jupiter_amm_implementati.Base.{
  ℕ, true, false, Bool-cases, ◌≡◌, refl, ◌∙◌, Option, none, some, Outcome, err, Profile, ltb, inl,
  inr, if◌then◌else◌, context, ◌>>=◌,
}
use jupiter_amm_implementati.Chain
use jupiter_amm_implementati.Chain.{ℤ, ClockRef, QuoteParams, as_u64}
use jupiter_amm_implementati.CpSwap.AmmConfig.{AmmConfig}
use jupiter_amm_implementati.CpSwap.Pool.{PoolStatusBitIndex, get_status_by_bit}
use jupiter_amm_implementati.Amms.Error.{
  Error, pool_is_not_trading, missing_amm_config, missing_token_mints,
}
use jupiter_amm_implementati.Amms.External.{External}
use jupiter_amm_implementati.Amms.SegaAmm.{SegaAmm, TokenMints}
use jupiter_amm_implementati.Amms.SegaAmm.Quote.{is_closed, quote_swap, quote}
use jupiter_amm_implementati.Amms.Clock.{
  Thread, returns, load_timestamp, load_epoch, Run, done, timestamp_loaded, epoch_loaded,
  quote_open, quote_thread,
}

-- A run taken apart at its next load.
module _ {Held : ClockRef → Type 0} {A : Type 0} {result : A} where
  Run-returns : {a : A} → Run Held result (returns a) → a ≡ result
  Run-returns done = refl

  Run-load_timestamp :
      {k : ℤ → Thread A}
      → Run Held result (load_timestamp k)
      → (seen : ClockRef) × Held seen × Run Held result (k seen.unix_timestamp)
  Run-load_timestamp (timestamp_loaded seen k held run) = (seen, held, run)

  Run-load_epoch :
      {k : ℕ → Thread A}
      → Run Held result (load_epoch k)
      → (seen : ClockRef) × Held seen × Run Held result (k seen.epoch)
  Run-load_epoch (epoch_loaded seen k held run) = (seen, held, run)

-- The timestamp of one clock with the epoch of another.
abbrev pub torn : ClockRef → ClockRef → ClockRef
torn first second = record { epoch = second.epoch; unix_timestamp = first.unix_timestamp }

module _ (ext : External) (profile : Profile) (self : SegaAmm ext) (params : QuoteParams) where
  -- What follows the guard of `quote`, at a clock.
  abbrev pub rest_of :
      ClockRef
      → Option AmmConfig
      → Option (TokenMints ext)
      → Outcome Error (Chain.Quote ext.decimals.D)
  rest_of clock amm_config mints = context amm_config missing_amm_config >>= λ config.
      context mints missing_token_mints >>= λ found.
      quote_swap ext profile clock self params config found

  Run-quote_open :
      {Held : ClockRef → Type 0} {result : Outcome Error (Chain.Quote ext.decimals.D)}
      (first : ClockRef) (amm_config : Option AmmConfig) (mints : Option (TokenMints ext))
      → Held first
      → Run Held result (quote_open ext profile self params first.unix_timestamp amm_config mints)
      → (second : ClockRef) × Held second × (rest_of (torn first second) amm_config mints ≡ result)
  unfolding quote_open
  Run-quote_open first none mints held run = (first, held, Run-returns run)
  Run-quote_open first (some config) none held run = (first, held, Run-returns run)
  Run-quote_open first (some config) (some mints) held run =
      let (second, held', rest) = Run-load_epoch run in (second, held', Run-returns rest)

  -- A quote of a pool that is open at a clock, or closed.
  pub quote_opened :
      (clock : ClockRef)
      → is_closed self.pool_state clock ≡ false
      → quote ext profile clock self params
        ≡ rest_of clock self.amm_config self.token_mints_and_token_programs
  unfolding quote
  quote_opened clock h = rw h

  pub quote_closed :
      (clock : ClockRef)
      → is_closed self.pool_state clock ≡ true
      → quote ext profile clock self params ≡ err pool_is_not_trading
  unfolding quote
  quote_closed clock h = rw h

  -- A run from the test of the opening time on.
  Run-guard :
      {Held : ClockRef → Type 0} {result : Outcome Error (Chain.Quote ext.decimals.D)}
      (first : ClockRef)
      → get_status_by_bit self.pool_state PoolStatusBitIndex.swap ≡ true
      → Held first
      → Run Held result (
          if ltb (as_u64 first.unix_timestamp) self.pool_state.open_time
          then returns (err pool_is_not_trading)
          else quote_open ext profile self params first.unix_timestamp self.amm_config
              self.token_mints_and_token_programs)
      → (second : ClockRef) × Held second
        × (quote ext profile (torn first second) self params ≡ result)
  unfolding is_closed
  Run-guard first allowed held run =
      elim (Bool-cases (ltb (as_u64 first.unix_timestamp) self.pool_state.open_time)) [
        | inl early ↦
            let over = Run-returns (rw early at run) in
            (first, held, quote_closed first (rw (allowed, early) refl) ∙ over)
        | inr trading ↦
            let (second, held', found) =
              Run-quote_open first self.amm_config self.token_mints_and_token_programs held
                (rw trading at run) in
            (second, held', quote_opened (torn first second) (rw (allowed, trading) refl) ∙ found)
      ]

  -- A quote is the one at a clock with the timestamp of one moment and the epoch of another.
  pub Run-torn :
      {Held : ClockRef → Type 0} {result : Outcome Error (Chain.Quote ext.decimals.D)}
      (start : ClockRef)
      → Held start
      → Run Held result (quote_thread ext profile self params)
      → (first : ClockRef) × (second : ClockRef) × Held first
        × Held second
        × (quote ext profile (torn first second) self params ≡ result)
  unfolding quote_thread is_closed
  Run-torn start held run =
      elim (Bool-cases (get_status_by_bit self.pool_state PoolStatusBitIndex.swap)) [
        | inl allowed ↦
            let (first, held', rest) = Run-load_timestamp (rw allowed at run) in
            let (second, held'', found) = Run-guard first allowed held' rest in
            (first, second, held', held'', found)
        | inr stopped ↦
            let over = Run-returns (rw stopped at run) in
            (start, start, held, held, quote_closed start (rw stopped refl) ∙ over)
      ]
