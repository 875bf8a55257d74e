-- ===== src/CpSwap/Seeds.antt =====
-- The constants of sega-cp-swap: the id of the program and its authority's seed
-- (sega-cp-swap/src/lib.rs), and those of sega-cp-swap/src/pool.rs.
use Prim.Native.String.{String}
use jupiter_amm_implementati.Base.{ℕ, ◌+◌, ◌-◌, ◌^◌}
use jupiter_amm_implementati.Chain.{Pubkey}

abbrev pub auth_seed : String
auth_seed = "vault_and_lp_mint_auth_seed"

-- declare_id!
abbrev pub id : Pubkey
id = 0x69220b9_651d9a28_41053e3c_bc5d8ab2_dcc78a1a_51a147cc_9b6b233c_d9a05678

abbrev pool_seed : String
pool_seed = "pool"

abbrev pool_lp_mint_seed : String
pool_lp_mint_seed = "pool_lp_mint"

abbrev pool_vault_seed : String
pool_vault_seed = "pool_vault"

abbrev q32 : ℕ
q32 = 2 ^ 32 - 1 + 1
