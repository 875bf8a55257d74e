-- ===== src/Base/Words.antt =====
-- The checked and the plain arithmetic of Rust's u64 and u128, whose values are plain naturals.
use Prim.Native.Nat.{ℕ, ◌+◌, ◌-◌, ◌*◌, ◌/◌, ◌%◌, ◌^◌}
use mathlib.Core.Option.{Option, none, some}
use jupiter_amm_implementati.Base.Tests.{leb, ◌==◌, if◌then◌else◌}
use jupiter_amm_implementati.Base.Results.{Outcome, ok, panic}

abbrev pub u64_max : ℕ
u64_max = 2 ^ 64 - 1

abbrev pub u128_max : ℕ
u128_max = 2 ^ 128 - 1

-- `a.checked_add(b)` on a type whose largest value is `max`.
abbrev pub checked_add : ℕ → ℕ → ℕ → Option ℕ
checked_add max a b = if leb (a + b) max then some (a + b) else none

-- `a.checked_mul(b)`
abbrev pub checked_mul : ℕ → ℕ → ℕ → Option ℕ
checked_mul max a b = if leb (a * b) max then some (a * b) else none

-- `a.checked_sub(b)`
abbrev pub checked_sub : ℕ → ℕ → Option ℕ
checked_sub a b = if leb b a then some (a - b) else none

-- `a.checked_div(b)`
abbrev pub checked_div : ℕ → ℕ → Option ℕ
checked_div a b = if b == 0 then none else some (a / b)

-- `a.checked_rem(b)`
abbrev pub checked_rem : ℕ → ℕ → Option ℕ
checked_rem a b = if b == 0 then none else some (a % b)

-- `u64::try_from(a)`
abbrev pub try_into_u64 : ℕ → Option ℕ
try_into_u64 a = if leb a u64_max then some a else none

-- Whether the build checks the plain `+` for overflow: a debug build does, a release build wraps.
pub data Profile : Type 0 where
  debug release : Profile

-- A plain `a + b` on a type whose largest value is `max`.
abbrev pub plain_add {ε} : {E : Type ε} → Profile → ℕ → ℕ → ℕ → Outcome E ℕ
plain_add debug max a b = if leb (a + b) max then ok (a + b) else panic
plain_add release max a b = ok ((a + b) % (max + 1))
