-- ===== src/Route/Pairs.antt =====
-- Lemmas on the pairs of mints (jupiter-core/src/route.rs).
use jupiter_amm_implementati.Base.{
  ℕ, ◌≡◌, refl, Bool, true, false, Option, some, List, [], ◌∷◌, ok, if◌then◌else◌,
}
use jupiter_amm_implementati.Chain.{Pubkey}
use jupiter_amm_implementati.Route.{get_two_permutations, get_token_mints_permutations}

-- itertools' permutations of two items are in their order and in the other.
abbrev pub ArePermutations : (ℕ → List Pubkey → List (List Pubkey)) → Type 0
ArePermutations permutations =
    (a b : Pubkey) → permutations 2 (a ∷ b ∷ []) ≡ (a ∷ b ∷ []) ∷ (b ∷ a ∷ []) ∷ []

-- `collect_tuple` makes a pair of a list of two.
abbrev pub IsPairCollector : (List Pubkey → Option (Pubkey × Pubkey)) → Type 0
IsPairCollector collect_tuple = (a b : Pubkey) → collect_tuple (a ∷ b ∷ []) ≡ some (a, b)

pub get_token_mints_permutations_two :
    (permutations : ℕ → List Pubkey → List (List Pubkey))
    (collect_tuple : List Pubkey → Option (Pubkey × Pubkey)) (unidirectional : Bool) (a b : Pubkey)
    → ArePermutations permutations
    → IsPairCollector collect_tuple
    → get_token_mints_permutations permutations collect_tuple unidirectional (a ∷ b ∷ [])
      ≡ ok (if unidirectional then (a, b) ∷ [] else (a, b) ∷ (b, a) ∷ [])
unfolding get_token_mints_permutations get_two_permutations
get_token_mints_permutations_two permutations collect_tuple true a b perms pair = rw (pair a b) refl
get_token_mints_permutations_two permutations collect_tuple false a b perms pair =
    rw (perms a b) refl
