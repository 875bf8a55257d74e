-- ===== src/Amms/Interface/Clients.antt =====
-- Clients of the trait `Amm`: any sequence of its calls that change an AMM, and the pairs of mints
-- of jupiter-core/src/route.rs.
use jupiter_amm_implementati.Base.{
  ℕ, ◌≡◌, ◌∙◌, sym, ap, refl, Option, List, [], ◌∷◌, Partial, ok, length, if◌then◌else◌, arith,
}
use jupiter_amm_implementati.Chain.{Pubkey}
use jupiter_amm_implementati.Route.{get_token_mints_permutations}
use jupiter_amm_implementati.Route.Pairs.{
  ArePermutations, IsPairCollector, get_token_mints_permutations_two,
}
use jupiter_amm_implementati.Amms.External.{External, AccountMap, KeyedAccount}
use jupiter_amm_implementati.Amms.Interface.{Amm, IsAmm}

list_of_two {ℓ} : {A : Type ℓ} (xs : List A) → length xs ≡ 2 → (a : A) × (b : A) × (xs ≡ a ∷ b ∷ [])
list_of_two (a ∷ b ∷ []) h = (a, b, refl)
list_of_two [] h = absurd (omega (arith, h))
list_of_two (a ∷ []) h = absurd (omega (arith, h))
list_of_two (a ∷ b ∷ c ∷ xs) h = absurd (omega (arith, h))

module _ (ext : External) (amm : Amm ext) where
  open amm use {
    State, from_keyed_account, update, clone_amm, key, program_id, get_reserve_mints,
    unidirectional, quote,
  }
  open ext use {decimals.{D}}

  -- The AMMs that a host has of an account: set up, updated from any maps, and cloned.
  pub data Made (keyed_account : KeyedAccount ext) : State → Type 0 where
    created : (self : State) → from_keyed_account keyed_account ≡ ok self → Made keyed_account self
    updated :
        (self new : State) (account_map : AccountMap ext)
        → Made keyed_account self
        → (update account_map self).1 ≡ new
        → Made keyed_account new
    cloned :
        (self new : State) → Made keyed_account self → clone_amm self ≡ new → Made keyed_account new

  -- `get_token_mints_permutations` asks the AMM for its mints and whether it trades one way only.
  unfoldable pub token_mints_permutations :
      (ℕ → List Pubkey → List (List Pubkey))
      → (List Pubkey → Option (Pubkey × Pubkey))
      → State
      → Partial (List (Pubkey × Pubkey))
  token_mints_permutations permutations collect_tuple self =
      get_token_mints_permutations permutations collect_tuple (unidirectional self)
        (get_reserve_mints self)

  module _ (laws : IsAmm ext amm) (keyed_account : KeyedAccount ext) where
    -- The AMM still stands for the account and its owner.
    Made-stands :
        {self : State}
        → Made keyed_account self
        → (key self ≡ keyed_account.key) × (program_id self ≡ ext.owner keyed_account.account)
    Made-stands (created self h) = laws.created keyed_account self h
    Made-stands (updated self new account_map before h) =
        let (same_key, same_program) = Made-stands before in
        let (kept_key, kept_program, _) = laws.update_keeps account_map self in
        (ap key (sym h) ∙ kept_key ∙ same_key, ap program_id (sym h) ∙ kept_program ∙ same_program)
    Made-stands (cloned self new before h) =
        let (same_key, same_program) = Made-stands before in
        let same : new ≡ self = sym h ∙ laws.clone_same self in
        (ap key same ∙ same_key, ap program_id same ∙ same_program)

    -- With the permutations and the tuples of itertools: whatever updates and clones a host makes of an
    -- AMM that keeps the contract of the trait, the AMM stands for its account and the account's owner, has two mints, and its pairs are the mints in
    -- both orders, or in their own order only if it is unidirectional.
    pub Made-routed :
        (permutations : ℕ → List Pubkey → List (List Pubkey))
        (collect_tuple : List Pubkey → Option (Pubkey × Pubkey)) {self : State}
        → ArePermutations permutations
        → IsPairCollector collect_tuple
        → Made keyed_account self
        → (key self ≡ keyed_account.key)
          × (program_id self ≡ ext.owner keyed_account.account)
          × ((a : Pubkey) × (b : Pubkey) × (get_reserve_mints self ≡ a ∷ b ∷ [])
              × (token_mints_permutations permutations collect_tuple self
                  ≡ ok (if unidirectional self then (a, b) ∷ [] else (a, b) ∷ (b, a) ∷ [])))
    unfolding token_mints_permutations
    Made-routed permutations collect_tuple {self} perms pair made =
        let (same_key, same_program) = Made-stands made in
        let (a, b, two) = list_of_two (get_reserve_mints self) (laws.two_mints self) in
        let found =
          get_token_mints_permutations_two permutations collect_tuple (unidirectional self) a b
            perms pair in
        (same_key, same_program, (a, b, two, rw two found))
