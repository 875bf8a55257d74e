-- ===== src/Jupiter/UnitTests.antt =====
-- The unit test of jupiter/src/lib.rs. The draws of the rand crate are a parameter: one draw for each
-- round of a loop.
use jupiter_amm_implementati.Base.{
  ℕ, zero, suc, ◌≤◌, ◌<◌, ◌≡◌, refl, Bool, true, ◌&&◌, Partial, ok, panic, ◌>>=◌, ◌>>◌, ltb, leb,
  if◌then◌else◌, arith,
}
use jupiter_amm_implementati.Jupiter.{find_jupiter_program_authority_id}
use jupiter_amm_implementati.Jupiter.Authorities.{IsInRange}

ltb-true : {a b : ℕ} → a < b → ltb a b ≡ true
ltb-true h = ground arith

in_range : {a b c : ℕ} → (a ≤ b) × (b < c) → (leb a b && ltb b c) ≡ true
in_range (h, h') = ground arith

module _ (sample : ℕ → ℕ → ℕ → ℕ) where
  -- Rounds of a loop that draws a number and asserts this of it.
  assert_draws : ℕ → ℕ × ℕ → (ℕ → Bool) → Partial (Unit {0})
  assert_draws zero range check = ok tt
  assert_draws (suc n) range check =
      let rest = assert_draws n range check in
      find_jupiter_program_authority_id (sample n) range >>= λ id. if check id then rest else panic

  unfoldable pub test_find_jupiter_program_authority_id : Partial (Unit {0})
  unfolding assert_draws
  test_find_jupiter_program_authority_id =
      assert_draws 100 (0, 8) (λ id. ltb id 8)
      >> assert_draws 100 (8, 16) (λ id. leb 8 id && ltb id 16)

  drawn :
      (n start end : ℕ)
      → start < end
      → find_jupiter_program_authority_id (sample n) (start, end) ≡ ok (sample n start end)
  unfolding find_jupiter_program_authority_id
  drawn n start end some_ = ground arith

  assert_draws-passes :
      (n start end : ℕ) (check : ℕ → Bool)
      → start < end
      → ((n : ℕ) → check (sample n start end) ≡ true)
      → assert_draws n (start, end) check ≡ ok tt
  unfolding assert_draws
  assert_draws-passes zero start end check some_ passes = refl
  assert_draws-passes (suc n) start end check some_ passes =
      rw (drawn n start end some_, passes n) (assert_draws-passes n start end check some_ passes)

  -- If every draw lies in its range, the test passes.
  test_find_jupiter_program_authority_id-passes :
      ((n : ℕ) → IsInRange (sample n)) → test_find_jupiter_program_authority_id ≡ ok tt
  unfolding test_find_jupiter_program_authority_id
  test_find_jupiter_program_authority_id-passes draws =
      let first =
        assert_draws-passes 100 0 8 (λ id. ltb id 8) (omega arith)
          (λ n. ltb-true (draws n 0 8 (omega arith)).1) in
      let second =
        assert_draws-passes 100 8 16 (λ id. leb 8 id && ltb id 16) (omega arith)
          (λ n. in_range (draws n 8 16 (omega arith))) in
      rw first second
