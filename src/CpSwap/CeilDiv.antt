-- ===== src/CpSwap/CeilDiv.antt =====
-- sega-cp-swap/src/math.rs: `CheckedCeilDiv` for u128.
use native.Mathlib.Nat.{div-add-mod', div-eq_of_lt, div-mul-le_self, mod-lt, mul-le-mul_left}
use jupiter_amm_implementati.Base.{
  ℕ, ◌+◌, ◌*◌, ◌/◌, ◌%◌, ◌≤◌, ◌<◌, ◌≡◌, ◌⊎◌, inl, inr, Partial, ok, try, ◌>>=◌, u128_max,
  checked_add, checked_mul, checked_div, checked_rem, ltb, leb, ◌==◌, if◌then◌else◌, arith, is_ok,
  true,
}

-- The branch for a quotient of 0: half of the divisor or more counts as 1.
small_quotient : ℕ → ℕ → Partial (ℕ × ℕ)
small_quotient self rhs = do
  doubled ← try (checked_mul u128_max self 2)
  if leb rhs doubled then ok (1, 0) else ok (0, 0)

-- The branch for a remainder: the quotient goes up, and the second part is the dividend over the
-- new quotient, rounded up.
raise_quotient : ℕ → ℕ → Partial (ℕ × ℕ)
raise_quotient self quotient = do
  raised ← try (checked_add u128_max quotient 1)
  least ← try (checked_div self raised)
  remainder ← try (checked_rem self raised)
  if ltb 0 remainder
      then (do least' ← try (checked_add u128_max least 1); ok (raised, least'))
      else ok (raised, least)

unfoldable pub checked_ceil_div : ℕ → ℕ → Partial (ℕ × ℕ)
unfolding small_quotient raise_quotient
checked_ceil_div self rhs = do
  quotient ← try (checked_div self rhs)
  if quotient == 0 then small_quotient self rhs else (do
    remainder ← try (checked_rem self rhs)
    if ltb 0 remainder then raise_quotient self quotient else ok (quotient, rhs))

-- The quotient is `self / rhs` rounded up.
abbrev IsCeilQuotient : ℕ → ℕ → ℕ → Type 0
IsCeilQuotient self rhs q = (self ≤ q * rhs) × (q * rhs < self + rhs)

pub checked_ceil_div_pos :
    (self rhs : ℕ) {q r : ℕ} → checked_ceil_div self rhs ≡ ok (q, r) → 0 < rhs
unfolding checked_ceil_div
checked_ceil_div_pos self rhs h = ground arith

-- A dividend below the divisor is rounded to the nearest of 0 and 1.
pub checked_ceil_div_small :
    (self rhs : ℕ) {q r : ℕ}
    → self < rhs
    → checked_ceil_div self rhs ≡ ok (q, r)
    → (self * 2 < rhs) × (q ≡ 0) ⊎ (rhs ≤ self * 2) × (q ≡ 1)
unfolding checked_ceil_div
checked_ceil_div_small self rhs below h = ground (arith, div-eq_of_lt below)

checked_ceil_div_value :
    (self rhs : ℕ) {q r : ℕ}
    → rhs ≤ self * 2
    → checked_ceil_div self rhs ≡ ok (q, r)
    → (0 < rhs)
      × ((self < rhs) × (q ≡ 1)
          ⊎ (self % rhs ≡ 0) × (q ≡ self / rhs)
          ⊎ (0 < self % rhs) × (q ≡ self / rhs + 1))
unfolding checked_ceil_div
checked_ceil_div_value self rhs half h =
    ground (arith, div-add-mod' self rhs, mod-lt self {m = rhs})

two_le_product : (a b : ℕ) → 2 ≤ b → a * 2 ≤ a * b
two_le_product a b h = mul-le-mul_left a h

-- From one half of the divisor on, the quotient is rounded up.
pub checked_ceil_div-IsCeilQuotient :
    (self rhs : ℕ) {q r : ℕ}
    → rhs ≤ self * 2
    → checked_ceil_div self rhs ≡ ok (q, r)
    → IsCeilQuotient self rhs q
checked_ceil_div-IsCeilQuotient self rhs half h =
    let (pos, cases) = checked_ceil_div_value self rhs half h in
    let whole = div-add-mod' self rhs in
    let below = mod-lt self pos in
    elim cases [
      | inl (small, e) ↦ rw e (omega arith)
      | inr (inl (even, e)) ↦ rw e (omega arith)
      | inr (inr (odd, e)) ↦ rw e (omega arith)
    ]

pub checked_ceil_div_total :
    (self rhs : ℕ)
    → 0 < rhs
    → self ≤ u128_max
    → rhs * 2 ≤ u128_max
    → is_ok (checked_ceil_div self rhs) ≡ true
unfolding checked_ceil_div
checked_ceil_div_total self rhs pos fits small =
    let q = self / rhs in
    let whole = div-add-mod' self rhs in
    let raised = div-mul-le_self self (q + 1) in
    ground (arith, mod-lt self pos, two_le_product q rhs, two_le_product (self / (q + 1)) (q + 1))
