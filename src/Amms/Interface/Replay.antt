-- ===== src/Amms/Interface/Replay.antt =====
-- The harness's snapshot of an AMM and its replay (`take_snapshot`, `update_amm` and
-- `load_program_test` in jupiter-core/src/amms/test_harness.rs), on a chain that does not change
-- meanwhile.
use jupiter_amm_implementati.Base.{
  ℕ, zero, suc, ◌≡◌, ◌∙◌, sym, ap, refl, false, Option, List, Outcome, ok, err, panic, ◌>>=◌,
  >>=_elim,
}
use jupiter_amm_implementati.Chain.{Pubkey}
use jupiter_amm_implementati.Amms.Error.{Error}
use jupiter_amm_implementati.Amms.External.{External, AccountMap, KeyedAccount}
use jupiter_amm_implementati.Amms.SegaAmm.Update.Precise.{contains, requested, update_amm_precise}
use jupiter_amm_implementati.Amms.Interface.{Amm}
use jupiter_amm_implementati.Amms.Interface.Snapshot.{
  saved, NoneExecutable, addresses_for_snapshot, update_amm_precise-snapshot,
}

-- `amm.update(...).unwrap()`, for what the update returns and leaves.
abbrev pub unwrap_updated : {S : Type 0} → Outcome Error (Unit {0}) × S → Outcome Error S
unwrap_updated (ok _, self) = ok self
unwrap_updated (err _, self) = panic
unwrap_updated (panic, self) = panic

unwrap_updated-eq-ok :
    {S : Type 0} (r : Outcome Error (Unit {0}) × S) {s : S} → unwrap_updated r ≡ ok s → r.1 ≡ s
unwrap_updated-eq-ok (ok _, self) h = cc
unwrap_updated-eq-ok (err _, self) h = absurd (cc (h))
unwrap_updated-eq-ok (panic, self) h = absurd (cc (h))

module _ (ext : External) (amm : Amm ext) where
  open amm use {State, from_keyed_account, get_accounts_to_update, update}

  -- `update_amm`: the accounts that the AMM asks for, as the chain holds them.
  unfoldable pub update_amm : AccountMap ext → State → Outcome Error State
  update_amm chain self =
      unwrap_updated (update_amm_precise ext get_accounts_to_update update chain self)

  unfoldable pub update_times : ℕ → AccountMap ext → State → Outcome Error State
  update_times zero chain self = ok self
  update_times (suc n) chain self = update_amm chain self >>= update_times n chain

  -- The AMM of an account after its three updates, from the chain or from a snapshot.
  unfoldable pub load : AccountMap ext → KeyedAccount ext → Outcome Error State
  load chain keyed_account = do self ← from_keyed_account keyed_account; update_times 3 chain self

  -- An AMM that asks for these accounts of the chain still does after an update from them.
  abbrev pub IsStable : AccountMap ext → List Pubkey → Type 0
  IsStable chain keys =
      (self : State)
      → get_accounts_to_update self ≡ keys
      → get_accounts_to_update (update (requested ext chain keys) self).1 ≡ keys

  module _ (permutations : ℕ → List Pubkey → List (List Pubkey))
      (collect_tuple : List Pubkey → Option (Pubkey × Pubkey)) (in_amounts : Pubkey → Option ℕ)
      (placeholder clock_id : Pubkey) where
    unfoldable pub take_snapshot :
        AccountMap ext → KeyedAccount ext → Outcome Error (State × List Pubkey)
    take_snapshot chain keyed_account = do
      self ← load chain keyed_account
      addresses ←
          addresses_for_snapshot ext amm permutations collect_tuple in_amounts placeholder clock_id
            self
      ok (self, addresses)

    module _ (chain : AccountMap ext) (keys : List Pubkey) (stable : IsStable chain keys) where
      update_amm-keeps :
          (self : State) {new : State}
          → get_accounts_to_update self ≡ keys
          → update_amm chain self ≡ ok new
          → get_accounts_to_update new ≡ keys
      unfolding update_amm update_amm_precise
      update_amm-keeps self {new} asks h =
          let left =
            unwrap_updated-eq-ok (update (requested ext chain (get_accounts_to_update self)) self)
              h in
          let kept = stable self asks in rw (← left) (rw asks kept)

      update_times-keeps :
          (n : ℕ) (self : State) {new : State}
          → get_accounts_to_update self ≡ keys
          → update_times n chain self ≡ ok new
          → get_accounts_to_update new ≡ keys
      unfolding update_times
      update_times-keeps zero self {new} asks h = let same : self ≡ new = cc (h) in rw (← same) asks
      update_times-keeps (suc n) self asks h =
          >>=_elim (update_amm chain self) _ h
            λ next e h_0. update_times-keeps n next (update_amm-keeps self asks e) h_0

      module _ (last : State) (last_asks : get_accounts_to_update last ≡ keys)
          (fresh : contains placeholder keys ≡ false) (plain : NoneExecutable ext chain keys)
          {addresses : List Pubkey}
          (listed : addresses_for_snapshot ext amm permutations collect_tuple in_amounts placeholder
              clock_id last
            ≡ ok addresses) where
        update_amm-snapshot :
            (self : State)
            → get_accounts_to_update self ≡ keys
            → update_amm (saved ext chain addresses) self ≡ update_amm chain self
        unfolding update_amm
        update_amm-snapshot self asks = ap unwrap_updated (
            update_amm_precise-snapshot ext amm permutations collect_tuple in_amounts placeholder
              clock_id last chain self listed (rw (sym last_asks) at fresh)
              (rw (sym last_asks) at plain) (asks ∙ sym last_asks))

        update_times-snapshot :
            (n : ℕ) (self : State) {new : State}
            → get_accounts_to_update self ≡ keys
            → update_times n chain self ≡ ok new
            → update_times n (saved ext chain addresses) self ≡ ok new
        unfolding update_times
        update_times-snapshot zero self asks h = h
        update_times-snapshot (suc n) self asks h =
            >>=_elim (update_amm chain self) _ h λ next e h_0.
              rw (update_amm-snapshot self asks, e)
                (update_times-snapshot n next (update_amm-keeps self asks e) h_0)

      -- On a chain that does not change, from an account whose AMM asks for certain accounts of it, and
      -- still does after an update from them, none being the placeholder or a program: the AMM that
      -- `take_snapshot` loads is the one that is loaded again from no more than the saved accounts.
      pub load-take_snapshot :
          (keyed_account : KeyedAccount ext) {self : State} {addresses : List Pubkey}
          → ((made : State)
              → from_keyed_account keyed_account ≡ ok made
              → get_accounts_to_update made ≡ keys)
          → contains placeholder keys ≡ false
          → NoneExecutable ext chain keys
          → take_snapshot chain keyed_account ≡ ok (self, addresses)
          → load (saved ext chain addresses) keyed_account ≡ ok self
      unfolding take_snapshot load
      load-take_snapshot keyed_account {self} {addresses} asks fresh plain h =
          >>=_elim (load chain keyed_account) _ h λ loaded e h_0.
            >>=_elim
              (addresses_for_snapshot ext amm permutations collect_tuple in_amounts placeholder
                clock_id loaded)
              _ h_0
              λ listed e_1 h_1. >>=_elim (from_keyed_account keyed_account) _ e λ made e_2 h_2.
                let same_self : loaded ≡ self = cc (h_1) in
                let same_list : listed ≡ addresses = cc (h_1) in
                let asked = asks made e_2 in
                let again =
                  update_times-snapshot loaded (update_times-keeps 3 made asked h_2) fresh plain
                    (rw same_list at e_1) 3 made asked h_2 in
                rw (e_2, again, same_self) refl
