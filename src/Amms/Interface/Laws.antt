-- ===== src/Amms/Interface/Laws.antt =====
-- The laws of the trait for its implementations (jupiter-core/src/amms).
use jupiter_amm_implementati.Base.{
  ℕ, ap, Bool, ◌≡◌, ◌≢◌, ◌≤◌, refl, Option, ok, panic, Profile, u64_max, arith,
}
use jupiter_amm_implementati.Chain
use jupiter_amm_implementati.Chain.{ClockRef, QuoteParams, SwapParams, SwapAndAccountMetas}
use jupiter_amm_implementati.CpSwap.Calculator.{SwapResult}
use jupiter_amm_implementati.Amms.External.{External, AccountMap, KeyedAccount}
use jupiter_amm_implementati.Amms.SegaAmm as Sega
use jupiter_amm_implementati.Amms.SegaAmm.{SegaAmm}
use jupiter_amm_implementati.Amms.SegaAmm.Update as SegaUpdate
use jupiter_amm_implementati.Amms.SegaAmm.Update.Effect.{update-ne-panic}
use jupiter_amm_implementati.Amms.SegaAmm.Quote.{after_transfer_fee, finish}
use jupiter_amm_implementati.Amms.SegaAmm.Quote.Outcomes.{quote-QuoteSteps}
use jupiter_amm_implementati.Amms.SegaAmm.Metas.Order.{NoneSigns, length-get_swap_and_account_metas}
use jupiter_amm_implementati.Amms.SplTokenSwapAmm as Spl
use jupiter_amm_implementati.Amms.SplTokenSwapAmm.{SplTokenSwapAmm}
use jupiter_amm_implementati.Amms.SplTokenSwapAmm.Curve.{TokenSwapLib, TokenSwapFees}
use jupiter_amm_implementati.Amms.SplTokenSwapAmm.Quote as SplQuote
use jupiter_amm_implementati.Amms.SplTokenSwapAmm.Metas as SplMetas
use jupiter_amm_implementati.Amms.Loader.{AnyAmm, sega_amm, spl_token_swap_amm, amm_factory}
use jupiter_amm_implementati.Amms.Interface.{IsAmm}
use jupiter_amm_implementati.Amms.Interface.Impls.{
  for_sega_amm, for_spl_token_swap_amm, for_any_amm,
}

module _ (ext : External) where
  -- `finish` converts every amount to 64 bits.
  finish_fits :
      (config : Option ext.TransferFeeConfig) (epoch : ℕ) (params : QuoteParams) (r : SwapResult)
      {q : Chain.Quote ext.decimals.D}
      → finish ext config epoch params r ≡ ok q
      → (q.fee_mint ≡ params.input_mint)
        × (q.in_amount ≤ u64_max)
        × (q.out_amount ≤ u64_max)
        × (q.fee_amount ≤ u64_max)
  unfolding finish after_transfer_fee
  finish_fits config epoch params r h = ground arith

  sega_created :
      (keyed_account : KeyedAccount ext) (self : SegaAmm ext)
      → Sega.from_keyed_account ext keyed_account ≡ ok self
      → (self.key ≡ keyed_account.key) × (self.program_id ≡ ext.owner keyed_account.account)
  unfolding Sega.from_keyed_account
  sega_created keyed_account self h = ground arith

  sega_keeps :
      (account_map : AccountMap ext) (self : SegaAmm ext)
      → ((SegaUpdate.update ext account_map self).1.key ≡ self.key)
        × ((SegaUpdate.update ext account_map self).1.program_id ≡ self.program_id)
  unfolding SegaUpdate.update
  sega_keeps account_map self = ground arith

  pub for_sega_amm-IsAmm : (unidirectional : Bool) → IsAmm ext (for_sega_amm ext unidirectional)
  unfolding Sega.get_reserve_mints
  for_sega_amm-IsAmm unidirectional = record {
    created = sega_created;
    update_returns = λ account_map self. update-ne-panic ext account_map self;
    update_keeps = λ account_map self.
        let (key, program_id) = sega_keeps account_map self in (key, program_id, refl);
    two_mints = λ self. refl;
    quoted = λ profile clock self params q h.
        let steps = quote-QuoteSteps ext profile clock self params h in
        finish_fits _ _ params steps.swap_result steps.finished;
    none_signs = λ self params metas h. (length-get_swap_and_account_metas ext self params h).1;
    clone_same = λ self. refl;
  }

module _ (ext : External) (lib : TokenSwapLib) where
  spl_created :
      (keyed_account : KeyedAccount ext) (self : SplTokenSwapAmm ext lib)
      → Spl.from_keyed_account ext lib keyed_account ≡ ok self
      → (self.key ≡ keyed_account.key) × (self.program_id ≡ ext.owner keyed_account.account)
  unfolding Spl.from_keyed_account
  spl_created keyed_account self h = ground arith

  spl_returns :
      (account_map : AccountMap ext) (self : SplTokenSwapAmm ext lib)
      → (Spl.update ext lib account_map self).0 ≢ panic
  unfolding Spl.update Spl.get_amount
  spl_returns account_map self h = ground arith

  spl_keeps :
      (account_map : AccountMap ext) (self : SplTokenSwapAmm ext lib)
      → ((Spl.update ext lib account_map self).1.key ≡ self.key)
        × ((Spl.update ext lib account_map self).1.program_id ≡ self.program_id)
        × ((Spl.update ext lib account_map self).1.label ≡ self.label)
  unfolding Spl.update
  spl_keeps account_map self = ground arith

  spl_quoted :
      (profile : Profile) (self : SplTokenSwapAmm ext lib) (params : QuoteParams)
      (q : Chain.Quote ext.decimals.D)
      → SplQuote.quote ext lib profile self params ≡ ok q
      → (q.fee_mint ≡ params.input_mint)
        × (q.in_amount ≤ u64_max)
        × (q.out_amount ≤ u64_max)
        × (q.fee_amount ≤ u64_max)
  unfolding SplQuote.quote
  spl_quoted profile self params q h = ground arith

  spl-NoneSigns :
      (self : SplTokenSwapAmm ext lib) (params : SwapParams) (metas : SwapAndAccountMetas)
      → SplMetas.get_swap_and_account_metas ext lib self params ≡ ok metas
      → NoneSigns metas.account_metas
  unfolding SplMetas.get_swap_and_account_metas SplMetas.account_metas_from
  spl-NoneSigns self params metas h = ground arith

  -- The clones of the swap library equal what they are made of.
  pub record HasClones : Type 0 where
    pub fees : (fees : TokenSwapFees) → lib.clone_fees fees ≡ fees
    pub calculator : (calculator : lib.Calculator) → lib.clone_calculator calculator ≡ calculator

  spl_clone : HasClones → (self : SplTokenSwapAmm ext lib) → Spl.clone ext lib self ≡ self
  unfolding Spl.clone
  spl_clone same self =
      rw (same.fees self.state.fees, same.calculator self.state.swap_curve.calculator)

  for_spl_token_swap_amm-IsAmm :
      (unidirectional : Bool)
      → HasClones
      → IsAmm ext (for_spl_token_swap_amm ext unidirectional lib)
  unfolding Spl.get_reserve_mints
  for_spl_token_swap_amm-IsAmm unidirectional same = record {
    created = spl_created;
    update_returns = spl_returns;
    update_keeps = spl_keeps;
    two_mints = λ self. refl;
    quoted = λ profile clock. spl_quoted profile;
    none_signs = spl-NoneSigns;
    clone_same = spl_clone same;
  }

  factory_created :
      (keyed_account : KeyedAccount ext) (self : AnyAmm ext lib) (unidirectional : Bool)
      → amm_factory ext lib keyed_account ≡ ok self
      → let any = for_any_amm ext unidirectional lib in
        (any.key self ≡ keyed_account.key) × (any.program_id self ≡ ext.owner keyed_account.account)
  unfolding amm_factory Sega.from_keyed_account Spl.from_keyed_account
  factory_created keyed_account (spl_token_swap_amm self) unidirectional h = ground arith
  factory_created keyed_account (sega_amm self) unidirectional h = ground arith

  -- A law of both implementations, for the box.
  both_laws {ℓ} :
      (P : AnyAmm ext lib → Type ℓ)
      → ((self : SplTokenSwapAmm ext lib) → P (spl_token_swap_amm self))
      → ((self : SegaAmm ext) → P (sega_amm self))
      → (self : AnyAmm ext lib) → P self
  both_laws P spl sega (spl_token_swap_amm self) = spl self
  both_laws P spl sega (sega_amm self) = sega self

  -- If the clones of the swap library equal what they are made of, the AMMs that the factory makes
  -- keep the contract of the trait: a set-up AMM stands for the account and its owner; an update
  -- returns, and keeps key, program and label; there are two mints; a quote has its fee in the input
  -- mint and amounts of 64 bits; no account of a swap has to sign; and a clone is equal.
  pub for_any_amm-IsAmm :
      (unidirectional : Bool) → HasClones → IsAmm ext (for_any_amm ext unidirectional lib)
  for_any_amm-IsAmm unidirectional same =
      let spl = for_spl_token_swap_amm-IsAmm unidirectional same in
      let sega = for_sega_amm-IsAmm ext unidirectional in
      record {
        created = λ keyed_account self. factory_created keyed_account self unidirectional;
        update_returns = λ account_map.
            both_laws _ (spl.update_returns account_map) (sega.update_returns account_map);
        update_keeps = λ account_map.
            both_laws _ (spl.update_keeps account_map) (sega.update_keeps account_map);
        two_mints = both_laws _ spl.two_mints sega.two_mints;
        quoted =
            λ profile clock. both_laws _ (spl.quoted profile clock) (sega.quoted profile clock);
        none_signs = both_laws _ spl.none_signs sega.none_signs;
        clone_same =
            both_laws _ (λ self. ap spl_token_swap_amm (spl.clone_same self))
              (λ self. ap sega_amm (sega.clone_same self));
      }
