-- ===== src/Jupiter/Authorities.antt =====
-- Lemmas on the authority that is drawn (jupiter/src/lib.rs).
use jupiter_amm_implementati.Base.{
  ℕ, zero, suc, ◌+◌, ◌≤◌, ◌<◌, ◌≡◌, Option, none, some, List, [], ◌∷◌, map, ok, ap, ◌∙◌, arith,
}
use jupiter_amm_implementati.Chain.{Pubkey, Bytes}
use jupiter_amm_implementati.Jupiter.{
  authority_count, count_from, find_jupiter_program_authority, find_authorities,
  find_jupiter_program_authority_id,
}

abbrev pub get_elem? {ℓ} : {A : Type ℓ} → List A → ℕ → Option A
get_elem? [] n = none
get_elem? (x ∷ xs) zero = some x
get_elem? (x ∷ xs) (suc n) = get_elem? xs n

-- A draw from a range that is not empty lies in it.
abbrev pub IsInRange : (ℕ → ℕ → ℕ) → Type 0
IsInRange sample =
    (start end : ℕ) → start < end → (start ≤ sample start end) × (sample start end < end)

get_elem?-map-count_from :
    (f : ℕ → Pubkey) (start count n : ℕ)
    → n < count
    → get_elem? (map f (count_from start count)) n ≡ some (f (start + n))
get_elem?-map-count_from f start zero n below = absurd (omega arith)
get_elem?-map-count_from f start (suc count) zero below = ap (λ k. some (f k)) (omega arith)
get_elem?-map-count_from f start (suc count) (suc n) below =
    get_elem?-map-count_from f (suc start) count n (omega arith)
    ∙ ap (λ k. some (f k)) (omega arith)

module _ (find_program_address : List Bytes → Pubkey → Pubkey) (key_bytes : Pubkey → Bytes)
    (id : Pubkey) (sample : ℕ → ℕ → ℕ) where
  -- Drawn from a range that is not empty and lies below the number of authorities, the number is in
  -- the range, and the authority of that number stands at its place in `find_authorities`.
  pub find_jupiter_program_authority_id-listed :
      (start end : ℕ)
      → IsInRange sample
      → start < end
      → end ≤ authority_count
      → (n : ℕ) × (find_jupiter_program_authority_id sample (start, end) ≡ ok n)
        × (start ≤ n)
        × (n < end)
        × (get_elem? (find_authorities find_program_address key_bytes id) n
            ≡ some (find_jupiter_program_authority find_program_address key_bytes id n))
  unfolding find_jupiter_program_authority_id find_authorities
  find_jupiter_program_authority_id-listed start end in_range some_ fits =
      let (low, high) = in_range start end some_ in
      let whole : 0 + sample start end ≡ sample start end = omega arith in
      let listed =
        get_elem?-map-count_from (find_jupiter_program_authority find_program_address key_bytes id)
          0 authority_count (sample start end) (omega arith) in
      (sample start end, ground arith, low, high, rw whole at listed)
