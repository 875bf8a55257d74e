-- ===== src/Amms/Loader/Choice.antt =====
-- Lemmas on the branches of `amm_factory` (jupiter-core/src/amms/loader.rs).
use jupiter_amm_implementati.Base.{◌≡◌, ◌≢◌, ◌↔◌, none, refl, [], ok, err, panic, arith}
use jupiter_amm_implementati.Amms.Error.{unsupported_pool}
use jupiter_amm_implementati.Amms.External.{External, KeyedAccount}
use jupiter_amm_implementati.Amms.SegaAmm
use jupiter_amm_implementati.Amms.SegaAmm.{sega}
use jupiter_amm_implementati.Amms.SplTokenSwapAmm
use jupiter_amm_implementati.Amms.SplTokenSwapAmm.{get, spl_token_swap_programs}
use jupiter_amm_implementati.Amms.SplTokenSwapAmm.Curve.{TokenSwapLib}
use jupiter_amm_implementati.Amms.Loader.{
  sega_swap_programs, AnyAmm, sega_amm, spl_token_swap_amm, amm_factory,
}

module _ (ext : External) (lib : TokenSwapLib) (keyed_account : KeyedAccount ext) where
  spl-ne-unsupported_pool :
      SplTokenSwapAmm.from_keyed_account ext lib keyed_account ≢ err unsupported_pool
  unfolding SplTokenSwapAmm.from_keyed_account
  spl-ne-unsupported_pool h = ground arith

  sega-ne-unsupported_pool : SegaAmm.from_keyed_account ext keyed_account ≢ err unsupported_pool
  unfolding SegaAmm.from_keyed_account
  sega-ne-unsupported_pool h = ground arith

  -- An account is unsupported exactly when its owner is in neither table of programs.
  pub amm_factory_unsupported_iff : (amm_factory ext lib keyed_account ≡ err unsupported_pool) ↔ (
      (get (ext.owner keyed_account.account) spl_token_swap_programs ≡ none)
      × (ext.owner keyed_account.account ≢ sega))
  unfolding amm_factory sega_swap_programs
  amm_factory_unsupported_iff =
      (λ h. ground (arith, spl-ne-unsupported_pool, sega-ne-unsupported_pool), λ h. ground arith)

  -- The loader does not panic on an account that has any data: the name of a program is looked up
  -- only after the program was found in the table.
  pub amm_factory-ne-panic :
      ext.account_data keyed_account.account ≢ [] → amm_factory ext lib keyed_account ≢ panic
  unfolding amm_factory SplTokenSwapAmm.from_keyed_account SegaAmm.from_keyed_account
  amm_factory-ne-panic h p = ground arith

  -- What the loader makes of an account of the Sega program is the `SegaAmm` of `from_keyed_account`.
  amm_factory-sega :
      (amm : AnyAmm ext lib)
      → ext.owner keyed_account.account ≡ sega
      → amm_factory ext lib keyed_account ≡ ok amm
      → (self : SegaAmm.SegaAmm ext) × (amm ≡ sega_amm self)
        × (SegaAmm.from_keyed_account ext keyed_account ≡ ok self)
  unfolding amm_factory spl_token_swap_programs sega_swap_programs
  amm_factory-sega (spl_token_swap_amm other) e h = absurd (ground arith)
  amm_factory-sega (sega_amm self) e h = (self, refl, ground arith)
