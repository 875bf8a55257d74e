-- ===== src/Tests/Jupiter.antt =====
-- Runs of the routes and of the authorities of the Jupiter program.
use jupiter_amm_implementati.Base.{
  ℕ, zero, suc, ◌+◌, ◌≡◌, refl, false, Option, none, some, List, [], ◌∷◌, ◌++◌, ok, length, arith,
}
use jupiter_amm_implementati.Chain.{Pubkey, Bytes}
use jupiter_amm_implementati.Route.{get_token_mints_permutations}
use jupiter_amm_implementati.Route.Pairs.{ArePermutations, IsPairCollector}
use jupiter_amm_implementati.Jupiter.Authorities.{IsInRange}

-- Each item of a list with the others.
abbrev put_back : Pubkey → List (Pubkey × List Pubkey) → List (Pubkey × List Pubkey)
put_back x [] = []
put_back x ((y, rest) ∷ picks) = (y, x ∷ rest) ∷ put_back x picks

abbrev picks_of : List Pubkey → List (Pubkey × List Pubkey)
picks_of [] = []
picks_of (x ∷ xs) = (x, xs) ∷ put_back x (picks_of xs)

abbrev put_first : Pubkey → List (List Pubkey) → List (List Pubkey)
put_first x [] = []
put_first x (xs ∷ rest) = (x ∷ xs) ∷ put_first x rest

abbrev spread :
    (List Pubkey → List (List Pubkey)) → List (Pubkey × List Pubkey) → List (List Pubkey)
spread shorter [] = []
spread shorter ((x, rest) ∷ picks) = put_first x (shorter rest) ++ spread shorter picks

abbrev pub permutations : ℕ → List Pubkey → List (List Pubkey)
permutations zero items = [] ∷ []
permutations (suc k) items = spread (permutations k) (picks_of items)

pub permutations-ArePermutations : ArePermutations permutations
permutations-ArePermutations a b = refl

abbrev pub collect_tuple : List Pubkey → Option (Pubkey × Pubkey)
collect_tuple (a ∷ b ∷ []) = some (a, b)
collect_tuple (a ∷ b ∷ c ∷ rest) = none
collect_tuple (a ∷ []) = none
collect_tuple [] = none

pub collects : IsPairCollector collect_tuple
collects a b = refl

-- Both directions, in the order of the mints.
both_pairs :
    get_token_mints_permutations permutations collect_tuple false (5 ∷ 6 ∷ [])
    ≡ ok ((5, 6) ∷ (6, 5) ∷ [])
unfolding get_token_mints_permutations
both_pairs = refl

-- The lowest number is always drawn, and an address is the length of its last seed.
abbrev lowest : ℕ → ℕ → ℕ
lowest start end = start

lowest-IsInRange : IsInRange lowest
lowest-IsInRange start end h = (omega arith, h)

abbrev address : List Bytes → Pubkey → Pubkey
address seeds program = program + length seeds

abbrev key_bytes : Pubkey → Bytes
key_bytes key = key ∷ []
