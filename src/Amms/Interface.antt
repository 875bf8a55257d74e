-- ===== src/Amms/Interface.antt =====
-- The trait `Amm` of jupiter_amm_interface as the AMMs of jupiter-core/src/amms implement it: its
-- operations as a record over the type of the AMM, and the laws that a host relies on.
pub mod Impls
pub mod Laws
pub mod Clients
pub mod QuoteSearch
pub mod Snapshot
pub mod Replay
pub mod MintTables
pub mod SwapInstruction
use Prim.Native.String.{String}
use jupiter_amm_implementati.Base.{
  ℕ, Bool, ◌≡◌, ◌≢◌, List, Outcome, ok, panic, Profile, length, u64_max, ◌≤◌,
}
use jupiter_amm_implementati.Base.Method.{Method}
use jupiter_amm_implementati.Chain
use jupiter_amm_implementati.Chain.{Pubkey, ClockRef, QuoteParams, SwapParams, SwapAndAccountMetas}
use jupiter_amm_implementati.Amms.Error.{Error}
use jupiter_amm_implementati.Amms.External.{External, AccountMap, KeyedAccount}
use jupiter_amm_implementati.Amms.SegaAmm.Metas.Order.{NoneSigns}

-- The clock is an argument of `quote`, for the AMMs that share it with the host.
pub record Amm (ext : External) : Type 1 where
  pub State : Type 0
  pub from_keyed_account : KeyedAccount ext → Outcome Error State
  pub label : State → String
  pub program_id : State → Pubkey
  pub key : State → Pubkey
  pub get_reserve_mints : State → List Pubkey
  pub get_accounts_to_update : State → List Pubkey
  pub update : AccountMap ext → Method Error State (Unit {0})
  pub quote : Profile → ClockRef → State → QuoteParams → Outcome Error (Chain.Quote ext.decimals.D)
  pub get_swap_and_account_metas : State → SwapParams → Outcome Error SwapAndAccountMetas
  pub clone_amm : State → State
  pub unidirectional : State → Bool

module _ (ext : External) (amm : Amm ext) where
  open amm use {
    State, from_keyed_account, label, program_id, key, get_reserve_mints, update, quote,
    get_swap_and_account_metas, clone_amm,
  }

  pub record IsAmm : Type 0 where
    -- A set-up AMM stands for the account and its owner.
    pub created :
        (keyed_account : KeyedAccount ext) (self : State)
        → from_keyed_account keyed_account ≡ ok self
        → (key self ≡ keyed_account.key) × (program_id self ≡ ext.owner keyed_account.account)
    -- An update returns, and keeps what the AMM stands for.
    pub update_returns :
        (account_map : AccountMap ext) (self : State) → (update account_map self).0 ≢ panic
    pub update_keeps :
        (account_map : AccountMap ext) (self : State)
        → (key (update account_map self).1 ≡ key self)
          × (program_id (update account_map self).1 ≡ program_id self)
          × (label (update account_map self).1 ≡ label self)
    pub two_mints : (self : State) → length (get_reserve_mints self) ≡ 2
    -- A quote's fee is in the input mint, and its amounts fit 64 bits.
    pub quoted :
        (profile : Profile) (clock : ClockRef) (self : State) (params : QuoteParams)
        (q : Chain.Quote ext.decimals.D)
        → quote profile clock self params ≡ ok q
        → (q.fee_mint ≡ params.input_mint)
          × (q.in_amount ≤ u64_max)
          × (q.out_amount ≤ u64_max)
          × (q.fee_amount ≤ u64_max)
    pub none_signs :
        (self : State) (params : SwapParams) (metas : SwapAndAccountMetas)
        → get_swap_and_account_metas self params ≡ ok metas
        → NoneSigns metas.account_metas
    pub clone_same : (self : State) → clone_amm self ≡ self
