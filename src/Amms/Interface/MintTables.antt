-- ===== src/Amms/Interface/MintTables.antt =====
-- The mints that the harness swaps, with the amounts to ask for (the tables at the top of
-- jupiter-core/src/amms/test_harness.rs).
use jupiter_amm_implementati.Base.{
  ℕ, Bool, false, Option, none, some, List, [], ◌∷◌, ◌==◌, if◌then◌else◌,
}
use jupiter_amm_implementati.Chain.{Pubkey}
use jupiter_amm_implementati.Constants.{usdc_mint, usdt_mint}

-- The tables of the harness: which mints are of Token-2022, and the amounts to ask for.
pub record MintTables : Type 0 where
  pub is_token2022 : Pubkey → Bool
  pub in_amounts : Pubkey → Option ℕ
  pub out_amounts : Pubkey → Option ℕ

-- spl_token::native_mint::ID, and the mints that the harness names.
abbrev native_mint : Pubkey
native_mint = 0x69b8857_feab8184_fb687f63_4618c035_dac439dc_1aeb3b55_98a0f000_00000001

abbrev jitosol_mint : Pubkey
jitosol_mint = 0xfcd141e9_832caf10_ad917495_ca0f271b_5b293cd4_7027ea73_7007ed40_eb39a0bd

abbrev token_mint_and_in_amount : List (Pubkey × ℕ)
token_mint_and_in_amount =
    (native_mint, 25_000_000_000)
    ∷ (jitosol_mint, 8_000_000_000)
    ∷ (0x8d2e970_f93c7b3d_50191e61_1acd93aa_80a546b4_5ec965e1_8b058715_5699c8ac, 100_000_000_000)
    ∷ (usdc_mint, 1_110_000_000)
    ∷ (usdt_mint, 1_110_000_000)
    ∷ (0x69c6c81_90e554cb_a407b7a8_84188dfe_1665144b_7c36fb73_60504cee_7e29dd5b, 100_000_000_000)
    ∷ []

abbrev amount_in : List (Pubkey × ℕ) → Pubkey → Option ℕ
amount_in [] mint = none
amount_in ((m, amount) ∷ rest) mint = if m == mint then some amount else amount_in rest mint

-- The harness has no mint of Token-2022, and no amount to ask an output for.
abbrev pub harness_tables : MintTables
harness_tables = record {
  is_token2022 = λ mint. false;
  in_amounts = amount_in token_mint_and_in_amount;
  out_amounts = amount_in [];
}
