-- ===== src/Amms/Interface/Snapshot.antt =====
-- The accounts that the harness saves of an AMM (`snapshot_amm_accounts` in
-- jupiter-core/src/amms/test_harness.rs). A HashSet of addresses is a list of them, which is only asked
-- whether it contains an address. The placeholder key is fresh, and the amounts to ask for, the pairs
-- of itertools and the address of the clock are arguments.
pub mod Members
use jupiter_amm_implementati.Base.{
  ℕ, ◌≡◌, ap, ==_iff, refl, Bool-cases, inl, inr, true, false, ◌||◌, Option, none, some, List, [],
  ◌∷◌, ◌++◌, map, Outcome, ok, ◌>>=◌, >>=_elim, unwrap, unwrap_partial, ◌==◌, if◌then◌else◌, arith,
}
use jupiter_amm_implementati.Chain.{Pubkey, SwapParams, exact_in}
use jupiter_amm_implementati.Amms.Error.{Error}
use jupiter_amm_implementati.Amms.External.{External, AccountMap}
use jupiter_amm_implementati.Amms.SegaAmm.Update.Precise.{contains, requested, update_amm_precise}
use jupiter_amm_implementati.Amms.Interface.{Amm}
use jupiter_amm_implementati.Amms.Interface.Clients.{token_mints_permutations}

abbrev pub remove : Pubkey → List Pubkey → List Pubkey
remove key [] = []
remove key (k ∷ keys) = if k == key then remove key keys else k ∷ remove key keys

pub contains-++ :
    (key : Pubkey) (xs ys : List Pubkey)
    → contains key (xs ++ ys) ≡ (contains key xs || contains key ys)
contains-++ key [] ys = refl
contains-++ key (x ∷ xs) ys = let rest = contains-++ key xs ys in ground arith

pub contains-remove :
    (key other : Pubkey) (keys : List Pubkey)
    → (key == other) ≡ false
    → contains key (remove other keys) ≡ contains key keys
contains-remove key other [] h = refl
contains-remove key other (k ∷ keys) h = let rest = contains-remove key other keys h in ground arith

contains-differ :
    (key other : Pubkey) (keys : List Pubkey)
    → contains other keys ≡ false
    → contains key keys ≡ true
    → (key == other) ≡ false
contains-differ key other keys absent there = elim (Bool-cases (key == other)) [
  | inl equal ↦
      let same = (==_iff key other).0 equal in
      let there' = rw same at there in absurd (cc (there', absent))
  | inr differ ↦ differ
]

module _ (ext : External) where
  -- Programs are not saved.
  abbrev unless_executable : Option ext.Account → Option ext.Account
  unless_executable none = none
  unless_executable (some account) = if ext.executable account then none else some account

  -- The accounts that the snapshot at these addresses holds.
  abbrev pub saved : AccountMap ext → List Pubkey → AccountMap ext
  saved account_map addresses key = unless_executable (requested ext account_map addresses key)

  -- No account of the map at these keys is a program.
  abbrev pub NoneExecutable : AccountMap ext → List Pubkey → Type 0
  NoneExecutable account_map keys =
      (key : Pubkey)
      → contains key keys ≡ true
      → unless_executable (account_map key) ≡ account_map key

module _ (ext : External) (amm : Amm ext) where
  open amm use {
    State, get_swap_and_account_metas, get_accounts_to_update, get_reserve_mints, update,
  }

  module _ (in_amounts : Pubkey → Option ℕ) (placeholder : Pubkey) (self : State) where
    -- The swap that is asked for; both amounts are looked up by the source mint.
    snapshot_params : Pubkey × Pubkey → Outcome Error SwapParams
    snapshot_params (source_mint, destination_mint) = do
      in_amount ← unwrap (in_amounts source_mint)
      out_amount ← unwrap (in_amounts source_mint)
      ok (record {
        swap_mode = exact_in;
        in_amount = in_amount;
        out_amount = out_amount;
        source_mint = source_mint;
        destination_mint = destination_mint;
        source_token_account = placeholder;
        destination_token_account = placeholder;
        token_transfer_authority = placeholder;
        quote_mint_to_referrer = none;
        jupiter_program_id = placeholder;
        missing_dynamic_accounts_as_default = false;
      })

    -- The accounts of the swap of a pair, and of the swaps of all pairs.
    pair_addresses : Pubkey × Pubkey → Outcome Error (List Pubkey)
    unfolding snapshot_params
    pair_addresses pair = do
      swap_params ← snapshot_params pair
      metas ← get_swap_and_account_metas self swap_params
      ok (map (λ account_meta. account_meta.pubkey) metas.account_metas)

    swap_addresses : List (Pubkey × Pubkey) → Outcome Error (List Pubkey)
    unfolding pair_addresses
    swap_addresses [] = ok []
    swap_addresses (pair ∷ pairs) = do
      addresses ← pair_addresses pair
      rest ← swap_addresses pairs
      ok (addresses ++ rest)

  module _ (permutations : ℕ → List Pubkey → List (List Pubkey))
      (collect_tuple : List Pubkey → Option (Pubkey × Pubkey)) (in_amounts : Pubkey → Option ℕ)
      (placeholder clock_id : Pubkey) (self : State) where
    unfoldable pub addresses_for_snapshot : Outcome Error (List Pubkey)
    unfolding swap_addresses
    addresses_for_snapshot = do
      pairs ← unwrap_partial (token_mints_permutations ext amm permutations collect_tuple self)
      swaps ← swap_addresses in_amounts placeholder self pairs
      ok (
          clock_id
          ∷ remove placeholder (swaps ++ (get_accounts_to_update self ++ get_reserve_mints self)))

    addresses-contains :
        {addresses : List Pubkey} (key : Pubkey)
        → addresses_for_snapshot ≡ ok addresses
        → contains key (get_accounts_to_update self) ≡ true
        → (key == placeholder) ≡ false
        → contains key addresses ≡ true
    unfolding addresses_for_snapshot
    addresses-contains {addresses} key h there other =
        >>=_elim (unwrap_partial (token_mints_permutations ext amm permutations collect_tuple self))
          _ h
          λ pairs e_0 h_0.
            >>=_elim (swap_addresses in_amounts placeholder self pairs) _ h_0 λ swaps e_1 h_1.
              let own = get_accounts_to_update self ++ get_reserve_mints self in
              let in_own = contains-++ key (get_accounts_to_update self) (get_reserve_mints self) in
              let in_all = contains-++ key swaps own in
              let kept = contains-remove key placeholder (swaps ++ own) other in
              let listed : clock_id ∷ remove placeholder (swaps ++ own) ≡ addresses = cc (h_1) in
              let saved : contains key (remove placeholder (swaps ++ own)) ≡ true = ground arith in
              rw (← listed) (ground arith)

    -- So the snapshot answers every AMM that asks for the same accounts as the chain does.
    requested-saved :
        (account_map : AccountMap ext) {addresses : List Pubkey} (key : Pubkey) (other : State)
        → addresses_for_snapshot ≡ ok addresses
        → contains placeholder (get_accounts_to_update self) ≡ false
        → NoneExecutable ext account_map (get_accounts_to_update self)
        → get_accounts_to_update other ≡ get_accounts_to_update self
        → requested ext (saved ext account_map addresses) (get_accounts_to_update other) key
          ≡ requested ext account_map (get_accounts_to_update other) key
    requested-saved account_map {addresses} key other h fresh plain same =
        elim (Bool-cases (contains key (get_accounts_to_update other))) [
          | inl there ↦
              let asked = rw same at there in
              let listed =
                addresses-contains key h asked (contains-differ key placeholder _ fresh asked) in
              rw (there, listed, plain key asked)
          | inr absent ↦ rw absent
        ]

    pub update_amm_precise-snapshot :
        (account_map : AccountMap ext) {addresses : List Pubkey} (other : State)
        → addresses_for_snapshot ≡ ok addresses
        → contains placeholder (get_accounts_to_update self) ≡ false
        → NoneExecutable ext account_map (get_accounts_to_update self)
        → get_accounts_to_update other ≡ get_accounts_to_update self
        → update_amm_precise ext get_accounts_to_update update
            (saved ext account_map addresses)
            other
          ≡ update_amm_precise ext get_accounts_to_update update account_map other
    unfolding update_amm_precise
    update_amm_precise-snapshot account_map other h fresh plain same =
        ap (λ m. update m other)
          (λ i key. requested-saved account_map key other h fresh plain same i)
