-- ===== src/Amms/Interface/Impls.antt =====
-- The trait's implementations: `SegaAmm` (jupiter-core/src/amms/sega_amm.rs), `SplTokenSwapAmm`
-- (jupiter-core/src/amms/spl_token_swap_amm.rs), and the box that `amm_factory`
-- (jupiter-core/src/amms/loader.rs) returns. `unidirectional` is the trait's own default.
use jupiter_amm_implementati.Base.{Bool}
use jupiter_amm_implementati.Amms.External.{External}
use jupiter_amm_implementati.Amms.SegaAmm as Sega
use jupiter_amm_implementati.Amms.SegaAmm.{SegaAmm}
use jupiter_amm_implementati.Amms.SegaAmm.Update as SegaUpdate
use jupiter_amm_implementati.Amms.SegaAmm.Quote as SegaQuote
use jupiter_amm_implementati.Amms.SegaAmm.Metas as SegaMetas
use jupiter_amm_implementati.Amms.SplTokenSwapAmm as Spl
use jupiter_amm_implementati.Amms.SplTokenSwapAmm.{SplTokenSwapAmm}
use jupiter_amm_implementati.Amms.SplTokenSwapAmm.Curve.{TokenSwapLib}
use jupiter_amm_implementati.Amms.SplTokenSwapAmm.Quote as SplQuote
use jupiter_amm_implementati.Amms.SplTokenSwapAmm.Metas as SplMetas
use jupiter_amm_implementati.Amms.Loader.{AnyAmm, sega_amm, spl_token_swap_amm, amm_factory}
use jupiter_amm_implementati.Amms.Interface.{Amm}

module _ (ext : External) (unidirectional : Bool) where
  -- `impl Amm for SegaAmm`; `Clone` is derived.
  abbrev pub for_sega_amm : Amm ext
  for_sega_amm = record {
    State = SegaAmm ext;
    from_keyed_account = Sega.from_keyed_account ext;
    label = λ self. "SEGA";
    program_id = λ self. self.program_id;
    key = λ self. self.key;
    get_reserve_mints = Sega.get_reserve_mints ext;
    get_accounts_to_update = Sega.get_accounts_to_update ext;
    update = SegaUpdate.update ext;
    quote = SegaQuote.quote ext;
    get_swap_and_account_metas = SegaMetas.get_swap_and_account_metas ext;
    clone_amm = λ self. self;
    unidirectional = λ self. unidirectional;
  }

  module _ (lib : TokenSwapLib) where
    -- `impl Amm for SplTokenSwapAmm`
    abbrev pub for_spl_token_swap_amm : Amm ext
    for_spl_token_swap_amm = record {
      State = SplTokenSwapAmm ext lib;
      from_keyed_account = Spl.from_keyed_account ext lib;
      label = λ self. self.label;
      program_id = λ self. self.program_id;
      key = λ self. self.key;
      get_reserve_mints = Spl.get_reserve_mints ext lib;
      get_accounts_to_update = Spl.get_accounts_to_update ext lib;
      update = Spl.update ext lib;
      quote = λ profile clock. SplQuote.quote ext lib profile;
      get_swap_and_account_metas = SplMetas.get_swap_and_account_metas ext lib;
      clone_amm = Spl.clone ext lib;
      unidirectional = λ self. unidirectional;
    }

    -- A method's call through the box.
    abbrev pub dispatch {ℓ} :
        {B : Type ℓ} → (SplTokenSwapAmm ext lib → B) → (SegaAmm ext → B) → AnyAmm ext lib → B
    dispatch f g (spl_token_swap_amm self) = f self
    dispatch f g (sega_amm self) = g self

    abbrev pub for_any_amm : Amm ext
    for_any_amm = record {
      State = AnyAmm ext lib;
      from_keyed_account = amm_factory ext lib;
      label = dispatch for_spl_token_swap_amm.label for_sega_amm.label;
      program_id = dispatch for_spl_token_swap_amm.program_id for_sega_amm.program_id;
      key = dispatch for_spl_token_swap_amm.key for_sega_amm.key;
      get_reserve_mints =
          dispatch for_spl_token_swap_amm.get_reserve_mints for_sega_amm.get_reserve_mints;
      get_accounts_to_update =
          dispatch for_spl_token_swap_amm.get_accounts_to_update
            for_sega_amm.get_accounts_to_update;
      update = λ account_map.
          dispatch
            (λ self.
              let (r, new) = for_spl_token_swap_amm.update account_map self in
              (r, spl_token_swap_amm new))
            (λ self. let (r, new) = for_sega_amm.update account_map self in (r, sega_amm new));
      quote = λ profile clock.
          dispatch (for_spl_token_swap_amm.quote profile clock) (for_sega_amm.quote profile clock);
      get_swap_and_account_metas =
          dispatch for_spl_token_swap_amm.get_swap_and_account_metas
            for_sega_amm.get_swap_and_account_metas;
      clone_amm =
          dispatch (λ self. spl_token_swap_amm (for_spl_token_swap_amm.clone_amm self))
            (λ self. sega_amm (for_sega_amm.clone_amm self));
      unidirectional = dispatch for_spl_token_swap_amm.unidirectional for_sega_amm.unidirectional;
    }
