-- ===== src/Amms/Loader.antt =====
-- jupiter-core/src/amms/loader.rs: the owner of an account decides which AMM it is.
pub mod Choice
use Prim.Native.String.{String}
use jupiter_amm_implementati.Base.{
  Bool, true, false, Option, none, some, List, [], ◌∷◌, Outcome, ok, err, ◌>>=◌, if◌then◌else◌,
}
use jupiter_amm_implementati.Chain.{Pubkey}
use jupiter_amm_implementati.Amms.Error.{Error, unsupported_pool}
use jupiter_amm_implementati.Amms.External.{External, KeyedAccount}
use jupiter_amm_implementati.Amms.SegaAmm
use jupiter_amm_implementati.Amms.SegaAmm.{SegaAmm, sega}
use jupiter_amm_implementati.Amms.SplTokenSwapAmm
use jupiter_amm_implementati.Amms.SplTokenSwapAmm.{SplTokenSwapAmm, get, spl_token_swap_programs}
use jupiter_amm_implementati.Amms.SplTokenSwapAmm.Curve.{TokenSwapLib}

-- SEGA_SWAP_PROGRAMS
unfoldable pub sega_swap_programs : List (Pubkey × String)
sega_swap_programs = (sega, "Sega") ∷ []

abbrev contains_key : Pubkey → List (Pubkey × String) → Bool
contains_key key m = elim (get key m) [ none ↦ false | some _ ↦ true ]

module _ (ext : External) (lib : TokenSwapLib) where
  -- `Box<dyn Amm + Send + Sync>`
  pub data AnyAmm : Type 0 where
    spl_token_swap_amm : SplTokenSwapAmm ext lib → AnyAmm
    sega_amm : SegaAmm ext → AnyAmm

  unfoldable pub amm_factory : KeyedAccount ext → Outcome Error AnyAmm
  amm_factory keyed_account =
      let owner = ext.owner keyed_account.account in
      if contains_key owner spl_token_swap_programs
      then (do
        amm ← SplTokenSwapAmm.from_keyed_account ext lib keyed_account
        ok (spl_token_swap_amm amm))
      else if contains_key owner sega_swap_programs
      then (do amm ← SegaAmm.from_keyed_account ext keyed_account; ok (sega_amm amm))
      else err unsupported_pool
