-- ===== src/CpSwap/Pool/Status.antt =====
-- Lemmas on `PoolState::get_status_by_bit` (sega-cp-swap/src/pool.rs).
use Prim.Native.Nat.{bit_and}
use jupiter_amm_implementati.Base.{
  ℕ, zero, suc, ◌*◌, ◌/◌, ◌%◌, ◌^◌, ◌<◌, ◌≡◌, ◌↔◌, refl, Bool, true, ◌&&◌, ◌==◌, arith, ==_iff,
}
use jupiter_amm_implementati.CpSwap.Pool.{
  PoolStatusBitIndex, deposit, withdraw, swap, PoolState, index, get_status_by_bit,
}

-- Whether a test holds at 0, ..., count - 1.
test_all : (ℕ → Bool) → ℕ → Bool
test_all test zero = true
test_all test (suc last) = test_all test last && test last

test_all-at :
    (test : ℕ → Bool) (count n : ℕ) → n < count → test_all test count ≡ true → test n ≡ true
unfolding test_all
test_all-at test zero n below all = absurd (omega arith)
test_all-at test (suc last) n below all = ground (arith, test_all-at test last n)

-- The mask of a bit picks the digit of that bit, over all bytes.
mask_table :
    (bit : PoolStatusBitIndex)
    → test_all (λ s. bit_and s (1 * 2 ^ index bit) == s / 2 ^ index bit % 2 * 2 ^ index bit) 256
      ≡ true
unfolding test_all
mask_table deposit = refl
mask_table withdraw = refl
mask_table swap = refl

mask_digit :
    (bit : PoolStatusBitIndex) (s : ℕ)
    → s < 256
    → bit_and s (1 * 2 ^ index bit) ≡ s / 2 ^ index bit % 2 * 2 ^ index bit
mask_digit bit s h = (==_iff _ _).0 (test_all-at _ 256 s h (mask_table bit))

-- An operation is allowed exactly when its binary digit of the status byte is 0: digit 0 is for
-- deposits, digit 1 for withdrawals, digit 2 for swaps.
pub get_status_by_bit_iff :
    (self : PoolState) (bit : PoolStatusBitIndex)
    → self.status < 256
    → (get_status_by_bit self bit ≡ true) ↔ (self.status / 2 ^ index bit % 2 ≡ 0)
unfolding get_status_by_bit
get_status_by_bit_iff self deposit h = ground (arith, mask_digit deposit self.status h)
get_status_by_bit_iff self withdraw h = ground (arith, mask_digit withdraw self.status h)
get_status_by_bit_iff self swap h = ground (arith, mask_digit swap self.status h)
