-- ===== src/Route.antt =====
-- jupiter-core/src/route.rs: the pairs of mints that an AMM trades. `permutations` and
-- `collect_tuple` are itertools', and are parameters.
pub mod Pairs
use jupiter_amm_implementati.Base.{
  ℕ, Bool, Option, none, some, List, [], ◌∷◌, Partial, ok, panic, unwrap, ◌>>=◌, if◌then◌else◌,
}
use jupiter_amm_implementati.Chain.{Pubkey}

-- `(permutation[0].clone(), permutation[1].clone())`, which panics out of range.
abbrev first_two {ℓ} : {A : Type ℓ} → List A → Partial (A × A)
first_two (a ∷ b ∷ rest) = ok (a, b)
first_two (a ∷ []) = panic
first_two [] = panic

-- `.map(...)` and `.collect()`: the first panic is the whole's.
abbrev pub collect {ℓ} : {A : Type ℓ} → List (List A) → Partial (List (A × A))
collect [] = ok []
collect (permutation ∷ rest) = do
  pair ← first_two permutation
  pairs ← collect rest
  ok (pair ∷ pairs)

unfoldable pub get_two_permutations {ℓ} :
    {A : Type ℓ} → (ℕ → List A → List (List A)) → List A → Partial (List (A × A))
get_two_permutations permutations items = collect (permutations 2 items)

-- What an AMM says of itself: `unidirectional` and `get_reserve_mints`.
unfoldable pub get_token_mints_permutations :
    (ℕ → List Pubkey → List (List Pubkey))
    → (List Pubkey → Option (Pubkey × Pubkey))
    → Bool
    → List Pubkey
    → Partial (List (Pubkey × Pubkey))
unfolding get_two_permutations
get_token_mints_permutations permutations collect_tuple unidirectional reserve_mints =
    if unidirectional
    then (do pair ← unwrap (collect_tuple reserve_mints); ok (pair ∷ []))
    else get_two_permutations permutations reserve_mints
