-- ===== src/CpSwap/Pool/Observation.antt =====
-- The account of a pool's price observations (sega-cp-swap/src/pool.rs), its layout and its sizes.
use jupiter_amm_implementati.Base.{ℕ, ◌+◌, ◌*◌, Bool, List}
use jupiter_amm_implementati.Chain.{Pubkey}

-- OBSERVATION_NUM
abbrev observation_num : ℕ
observation_num = 100

pub record Observation : Type 0 where
  pub block_timestamp : ℕ
  pub cumulative_token_0_price_x32 : ℕ
  pub cumulative_token_1_price_x32 : ℕ

abbrev observation_len : ℕ
observation_len = 8 + 16 + 16

-- The array has `observation_num` items and the padding four.
pub record ObservationState : Type 0 where
  pub initialized : Bool
  pub observation_index : ℕ
  pub pool_id : Pubkey
  pub observations : List Observation
  pub padding : List ℕ

abbrev len : ℕ
len = 8 + 1 + 2 + 32 + observation_num * observation_len + 4 * 8
