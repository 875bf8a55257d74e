-- ===== src/Amms/Interface/Snapshot/Members.antt =====
-- Which addresses a snapshot has (`snapshot_amm_accounts` in
-- jupiter-core/src/amms/test_harness.rs).
use jupiter_amm_implementati.Base.{
  ℕ, ◌≡◌, ◌≢◌, ◌↔◌, ◌⊎◌, inl, inr, Option-cases, sym, ◌∙◌, refl, Bool, Bool-cases, true, false,
  ◌||◌, Option, none, some, List, [], ◌∷◌, ◌++◌, map, ok, >>=_elim, unwrap, unwrap_partial,
  unwrap_partial-eq-ok, ◌==◌, ==_iff, arith,
}
use jupiter_amm_implementati.Chain.{Pubkey, SwapParams, SwapAndAccountMetas, exact_in}
use jupiter_amm_implementati.Amms.Error.{Error}
use jupiter_amm_implementati.Amms.External.{External}
use jupiter_amm_implementati.Amms.SegaAmm.Update.Precise.{contains}
use jupiter_amm_implementati.Amms.Interface.{Amm}
use jupiter_amm_implementati.Amms.Interface.Clients.{token_mints_permutations}
use jupiter_amm_implementati.Amms.Interface.Snapshot.{
  remove, contains-++, contains-remove, snapshot_params, pair_addresses, swap_addresses,
  addresses_for_snapshot,
}

||-true_iff : (a b : Bool) → ((a || b) ≡ true) ↔ ((a ≡ true) ⊎ (b ≡ true))
||-true_iff true b = (λ h. inl refl, λ h. refl)
||-true_iff false b = (inr, λ h. elim h [ inl h ↦ absurd (cc (h)) | inr h ↦ h ])

contains-++_iff :
    (key : Pubkey) (xs ys : List Pubkey)
    → (contains key (xs ++ ys) ≡ true) ↔ ((contains key xs ≡ true) ⊎ (contains key ys ≡ true))
contains-++_iff key xs ys = rw (contains-++ key xs ys) (||-true_iff _ _)

contains-remove_self :
    (key other : Pubkey) (keys : List Pubkey)
    → (key == other) ≡ true
    → contains key (remove other keys) ≡ false
contains-remove_self key other [] h = refl
contains-remove_self key other (k ∷ keys) h =
    let rest = contains-remove_self key other keys h in ground arith

contains-remove_iff :
    (key other : Pubkey) (keys : List Pubkey)
    → (contains key (remove other keys) ≡ true) ↔ ((key ≢ other) × (contains key keys ≡ true))
contains-remove_iff key other keys = elim (Bool-cases (key == other)) [
  | inl equal ↦
      let gone = contains-remove_self key other keys equal in
      (λ h. absurd (cc (h, gone)), λ h. absurd (h.0 ((==_iff key other).0 equal)))
  | inr differ ↦
      let kept = contains-remove key other keys differ in
      let other_key : key ≢ other = λ same. absurd (cc (differ, (==_iff key other).1 same)) in
      (λ h. (other_key, sym kept ∙ h), λ h. kept ∙ h.1)
]

contains-∷_iff :
    (key k : Pubkey) (keys : List Pubkey)
    → (contains key (k ∷ keys) ≡ true) ↔ ((key ≡ k) ⊎ (contains key keys ≡ true))
contains-∷_iff key k keys =
    let same = ==_iff key k in
    let split = ||-true_iff (key == k) (contains key keys) in
    (
      λ h. elim (split.0 h) [ inl e ↦ inl (same.0 e) | inr there ↦ inr there ],
      λ h. elim h [ inl e ↦ split.1 (inl (same.1 e)) | inr there ↦ split.1 (inr there) ],
    )

module _ (ext : External) (amm : Amm ext) (in_amounts : Pubkey → Option ℕ)
    (placeholder clock_id : Pubkey) (self : amm.State) where
  -- The swap of a pair that a snapshot asks for: of the amount of the source mint, with the
  -- placeholder for the accounts of the user and for the program.
  abbrev pub asked : Pubkey → Pubkey → ℕ → SwapParams
  asked source destination amount = record {
    swap_mode = exact_in;
    in_amount = amount;
    out_amount = amount;
    source_mint = source;
    destination_mint = destination;
    source_token_account = placeholder;
    destination_token_account = placeholder;
    token_transfer_authority = placeholder;
    quote_mint_to_referrer = none;
    jupiter_program_id = placeholder;
    missing_dynamic_accounts_as_default = false;
  }

  -- An account of the swap of this pair, or of one of these pairs.
  pub record InSwap (pair : Pubkey × Pubkey) (key : Pubkey) : Type 0 where
    pub amount : ℕ
    pub metas : SwapAndAccountMetas
    pub amounted : in_amounts pair.0 ≡ some amount
    pub swapped : amm.get_swap_and_account_metas self (asked pair.0 pair.1 amount) ≡ ok metas
    pub listed : contains key (map (λ meta. meta.pubkey) metas.account_metas) ≡ true

  abbrev pub InSwaps : List (Pubkey × Pubkey) → Pubkey → Type 0
  InSwaps [] key = ⊥
  InSwaps (pair ∷ pairs) key = InSwap pair key ⊎ InSwaps pairs key

  -- The clock; and but for the placeholder, the accounts of the swaps, the accounts that the AMM
  -- updates from, and its mints.
  abbrev pub IsSaved : List (Pubkey × Pubkey) → Pubkey → Type 0
  IsSaved pairs key =
      (key ≡ clock_id)
      ⊎ ((key ≢ placeholder)
          × (InSwaps pairs key
              ⊎ (contains key (amm.get_accounts_to_update self) ≡ true)
              ⊎ (contains key (amm.get_reserve_mints self) ≡ true)))

  unwrap-eq-ok : {A : Type 0} (o : Option A) {a : A} → unwrap {E = Error} o ≡ ok a → o ≡ some a
  unwrap-eq-ok none h = cc
  unwrap-eq-ok (some a) h = cc

  snapshot_params-asked :
      (pair : Pubkey × Pubkey) {params : SwapParams}
      → snapshot_params ext amm in_amounts placeholder self pair ≡ ok params
      → (amount : ℕ) × (in_amounts pair.0 ≡ some amount) × (asked pair.0 pair.1 amount ≡ params)
  unfolding snapshot_params
  snapshot_params-asked (source, destination) h = elim (Option-cases (in_amounts source)) [
    | inl (amount, e) ↦ (amount, e, cc (rw e at h))
    | inr e ↦ absurd (cc (rw e at h))
  ]

  pair_addresses-InSwap_iff :
      (pair : Pubkey × Pubkey) (key : Pubkey) {addresses : List Pubkey}
      → pair_addresses ext amm in_amounts placeholder self pair ≡ ok addresses
      → (contains key addresses ≡ true) ↔ InSwap pair key
  unfolding pair_addresses
  pair_addresses-InSwap_iff pair key {addresses = all} h =
      >>=_elim (snapshot_params ext amm in_amounts placeholder self pair) _ h λ params e h_0.
        >>=_elim (amm.get_swap_and_account_metas self params) _ h_0 λ metas e_1 h_1.
          let (amount, amounted, same) = snapshot_params-asked pair e in
          let listed : map (λ meta. meta.pubkey) metas.account_metas ≡ all = cc (h_1) in
          let swapped = rw (← same) at e_1 in
          (
            λ c. record {
              amount = amount;
              metas = metas;
              amounted = amounted;
              swapped = swapped;
              listed = rw listed c;
            },
            λ s.
                let same_amount : amount ≡ s.amount = cc (amounted, s.amounted) in
                let again = rw same_amount at swapped in
                let same_metas : s.metas ≡ metas = cc (again, s.swapped) in
                let there = s.listed in rw (← listed) (rw same_metas at there),
          )

  swap_addresses-InSwaps_iff :
      (pairs : List (Pubkey × Pubkey)) (key : Pubkey) {addresses : List Pubkey}
      → swap_addresses ext amm in_amounts placeholder self pairs ≡ ok addresses
      → (contains key addresses ≡ true) ↔ InSwaps pairs key
  unfolding swap_addresses
  swap_addresses-InSwaps_iff [] key {addresses} h =
      let same : [] ≡ addresses = cc (h) in rw (← same) (λ c. absurd (cc (c)), λ x. absurd x)
  swap_addresses-InSwaps_iff (pair ∷ pairs) key {addresses = all} h =
      >>=_elim (pair_addresses ext amm in_amounts placeholder self pair) _ h λ addresses e h_0.
        >>=_elim (swap_addresses ext amm in_amounts placeholder self pairs) _ h_0 λ rest e_1 h_1.
          let joined : addresses ++ rest ≡ all = cc (h_1) in
          let first = pair_addresses-InSwap_iff pair key e in
          let others = swap_addresses-InSwaps_iff pairs key e_1 in
          let split = contains-++_iff key addresses rest in
          rw (← joined) (
            λ c. elim (split.0 c) [ inl x ↦ inl (first.0 x) | inr x ↦ inr (others.0 x) ],
            λ c. elim c [ inl x ↦ split.1 (inl (first.1 x)) | inr x ↦ split.1 (inr (others.1 x)) ],
          )

  -- A snapshot of an AMM has the address of the clock and, but for the placeholder, these addresses
  -- and no others: the accounts of the swap of each pair, asked for with the amount of the pair's source
  -- mint; the accounts that the AMM updates from; and its mints.
  pub addresses_for_snapshot-IsSaved_iff :
      (permutations : ℕ → List Pubkey → List (List Pubkey))
      (collect_tuple : List Pubkey → Option (Pubkey × Pubkey)) (key : Pubkey)
      {pairs : List (Pubkey × Pubkey)} {addresses : List Pubkey}
      → token_mints_permutations ext amm permutations collect_tuple self ≡ ok pairs
      → addresses_for_snapshot ext amm permutations collect_tuple in_amounts placeholder clock_id
          self
        ≡ ok addresses
      → (contains key addresses ≡ true) ↔ IsSaved pairs key
  unfolding addresses_for_snapshot
  addresses_for_snapshot-IsSaved_iff permutations collect_tuple key {pairs = pairs}
        {addresses = all} found h =
      >>=_elim (unwrap_partial (token_mints_permutations ext amm permutations collect_tuple self)) _
        h
        λ listed e_0 h_0.
          >>=_elim (swap_addresses ext amm in_amounts placeholder self listed) _ h_0 λ xs e_1 h_1.
            let is_listed : listed ≡ pairs = cc (found, unwrap_partial-eq-ok _ e_0) in
            let swaps = swap_addresses-InSwaps_iff pairs key (rw is_listed at e_1) in
            let updates = amm.get_accounts_to_update self in
            let mints = amm.get_reserve_mints self in
            let joined : clock_id ∷ remove placeholder (xs ++ (updates ++ mints)) ≡ all =
              cc (h_1) in
            let top = contains-∷_iff key clock_id (remove placeholder (xs ++ (updates ++ mints))) in
            let kept = contains-remove_iff key placeholder (xs ++ (updates ++ mints)) in
            let outer = contains-++_iff key xs (updates ++ mints) in
            let inner = contains-++_iff key updates mints in
            rw (← joined) (
              λ c. elim (top.0 c) [
                | inl e ↦ inl e
                | inr c ↦
                    let (other, c) = kept.0 c in
                    inr (
                      other,
                      elim (outer.0 c) [ inl x ↦ inl (swaps.0 x) | inr x ↦ inr (inner.0 x) ],
                    )
              ],
              λ c. elim c [
                | inl e ↦ top.1 (inl e)
                | inr (other, inl x) ↦ top.1 (inr (kept.1 (other, outer.1 (inl (swaps.1 x)))))
                | inr (other, inr x) ↦ top.1 (inr (kept.1 (other, outer.1 (inr (inner.1 x)))))
              ],
            )
