-- ===== src/Constants.antt =====
-- jupiter-core/src/constants.rs and config.rs.
use Prim.Native.String.{String}
use jupiter_amm_implementati.Chain.{Pubkey}

abbrev pub usdc_mint : Pubkey
usdc_mint = 0xc6fa7af3_bedbad3a_3d65f36a_abc97431_b1bbe4c2_d2f6e0e4_7ca60203_452f5d61

abbrev pub usdt_mint : Pubkey
usdt_mint = 0xce010e60_afedb227_17bd6319_2f54145a_3f965a33_bb82d2c7_029eb2ce_1e208264

abbrev rpc_url : String
rpc_url = "https://solana-api.projectserum.com"
