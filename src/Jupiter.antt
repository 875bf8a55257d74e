-- ===== src/Jupiter.antt =====
-- jupiter/src/lib.rs: the authorities, the token ledgers and the derived addresses of the Jupiter
-- program. The draws of the rand crate and the derivation of an address are parameters.
pub mod Authorities
pub mod UnitTests
use jupiter_amm_implementati.Base.{
  ℕ, zero, suc, ◌-◌, Option, List, [], ◌∷◌, map, Outcome, Nothing, Partial, ok, panic, unwrap, ltb,
  if◌then◌else◌,
}
use jupiter_amm_implementati.Chain.{Pubkey, Bytes, as_bytes}

abbrev pub authority_count : ℕ
authority_count = 16

-- The numbers start, start + 1, ... of a range, as many as it has.
abbrev pub count_from : ℕ → ℕ → List ℕ
count_from start zero = []
count_from start (suc count) = start ∷ count_from (suc start) count

-- `start..end`
abbrev pub range : ℕ → ℕ → List ℕ
range start end = count_from start (end - start)

unfoldable pub token_ledgers : List Pubkey
token_ledgers =
    0xfaff31b4_4953a215_4e84e048_76514eb4_f89556f8_b1c86fa1_bb9f45fb_a9059f2f
    ∷ 0xfbf02cb4_40b4c19e_3f7b9c64_615fcb03_993ff3fb_1438091c_dea5a40b_325daa8a
    ∷ 0xaf16a7fa_21a59137_12652970_6d7635f5_d24028b5_06e8ba32_01e86b39_36b0012b
    ∷ 0xda58c6bc_93b0c827_ee838938_9fd8a8c7_8fe46468_a631adc4_dc77014e_318827ac ∷ []

-- `Pubkey::find_program_address`, a key's bytes, and `crate::ID`.
module _ (find_program_address : List Bytes → Pubkey → Pubkey) (key_bytes : Pubkey → Bytes)
    (id : Pubkey) where
  unfoldable pub find_jupiter_program_authority : ℕ → Pubkey
  find_jupiter_program_authority n = find_program_address (as_bytes "authority" ∷ (n ∷ []) ∷ []) id

  unfoldable pub find_authorities : List Pubkey
  find_authorities = map find_jupiter_program_authority (range 0 authority_count)

  unfoldable pub find_event_authority : Pubkey
  find_event_authority = find_program_address (as_bytes "__event_authority" ∷ []) id

  unfoldable pub find_jupiter_open_orders : Pubkey → Pubkey → Pubkey
  find_jupiter_open_orders market authority =
      find_program_address (as_bytes "open_orders" ∷ key_bytes market ∷ key_bytes authority ∷ []) id

-- `Uniform::from(start..end)` panics on an empty range; `sample` is what is drawn otherwise.
unfoldable pub find_jupiter_program_authority_id : (ℕ → ℕ → ℕ) → ℕ × ℕ → Partial ℕ
find_jupiter_program_authority_id sample (start, end) =
    if ltb start end then ok (sample start end) else panic

-- `choose` draws an item of a list.
unfoldable pub find_jupiter_token_ledger : (List Pubkey → Option Pubkey) → Partial Pubkey
find_jupiter_token_ledger choose = unwrap (choose token_ledgers)
