-- ===== src/Base/Results.antt =====
-- How a Rust call ends: with a value, with an error that `?` passes on, or with a panic.
use mathlib.Core.Path.{◌≡◌, refl}
use mathlib.Core.Bool.{Bool, true, false}
use mathlib.Core.Logic.{◌≢◌, ◌⊎◌, inl, inr}
use mathlib.Core.Option.{Option, none, some}

pub data Outcome {ℓ κ} (E : Type ℓ) (A : Type κ) : Type (ℓ ⊔ κ) where
  ok : A → Outcome E A
  err : E → Outcome E A
  panic : Outcome E A

-- The error of a function that returns `Option`: its `None`.
pub data Nothing : Type 0 where
  nothing : Nothing

-- A Rust function that returns `Option<A>`, and that may panic.
abbrev pub Partial {ℓ} : Type ℓ → Type ℓ
Partial A = Outcome Nothing A

infixl 5 ◌>>=◌ ◌>>◌
abbrev pub ◌>>=◌ {ε ℓ κ} :
    {E : Type ε} {A : Type ℓ} {B : Type κ} → Outcome E A → (A → Outcome E B) → Outcome E B
ok a >>= f = f a
err e >>= f = err e
panic >>= f = panic

abbrev pub ◌>>◌ {ε ℓ} : {E : Type ε} {B : Type ℓ} → Outcome E (Unit {0}) → Outcome E B → Outcome E B
m >> k = m >>= λ _. k

-- `o?` in a function that returns `Option`.
abbrev pub try {ℓ} : {A : Type ℓ} → Option A → Partial A
try none = err nothing
try (some a) = ok a

-- `o.unwrap()`
abbrev pub unwrap {ε ℓ} : {E : Type ε} {A : Type ℓ} → Option A → Outcome E A
unwrap none = panic
unwrap (some a) = ok a

-- `o.unwrap()` on the result of a call that returns `Option`.
abbrev pub unwrap_partial {ε ℓ} : {E : Type ε} {A : Type ℓ} → Partial A → Outcome E A
unwrap_partial (ok a) = ok a
unwrap_partial (err _) = panic
unwrap_partial panic = panic

-- `o.context(e)` or `o.ok_or(e)` on an `Option`.
abbrev pub context {ε ℓ} : {E : Type ε} {A : Type ℓ} → Option A → E → Outcome E A
context none e = err e
context (some a) e = ok a

-- `.context(e)` on the result of a call that returns `Option` and may panic.
abbrev pub context_partial {ε ℓ} : {E : Type ε} {A : Type ℓ} → Partial A → E → Outcome E A
context_partial (ok a) e = ok a
context_partial (err _) e = err e
context_partial panic e = panic

abbrev pub is_ok {ε ℓ} : {E : Type ε} {A : Type ℓ} → Outcome E A → Bool
is_ok (ok a) = true
is_ok (err e) = false
is_ok panic = false

pub is_ok→value {ε ℓ} :
    {E : Type ε} {A : Type ℓ} (m : Outcome E A) → is_ok m ≡ true → (a : A) × (m ≡ ok a)
is_ok→value (ok a) h = (a, refl)
is_ok→value (err e) h = cc
is_ok→value panic h = cc

pub Outcome-cases {ε ℓ} :
    {E : Type ε} {A : Type ℓ} (m : Outcome E A)
    → ((a : A) × (m ≡ ok a)) ⊎ ((e : E) × (m ≡ err e)) ⊎ (m ≡ panic)
Outcome-cases (ok a) = inl (a, refl)
Outcome-cases (err e) = inr (inl (e, refl))
Outcome-cases panic = inr (inr refl)

-- A successful bind taken apart: the value and both equations are bound as variables.
pub >>=_elim {ε ℓ κ ι} :
    {E : Type ε} {A : Type ℓ} {B : Type κ} {P : Type ι} (m : Outcome E A) (f : A → Outcome E B)
    {b : B}
    → (m >>= f) ≡ ok b
    → ((a : A) → m ≡ ok a → f a ≡ ok b → P)
    → P
>>=_elim (ok a) f h k = k a refl h
>>=_elim (err e) f h k = absurd (cc)
>>=_elim panic f h k = absurd (cc)

pub unwrap_partial-eq-ok {ε ℓ} :
    {E : Type ε} {A : Type ℓ} (m : Partial A) {a : A} → unwrap_partial {E = E} m ≡ ok a → m ≡ ok a
unwrap_partial-eq-ok (ok a) h = cc
unwrap_partial-eq-ok (err e) h = cc
unwrap_partial-eq-ok panic h = cc

pub context-eq-ok {ε ℓ} :
    {E : Type ε} {A : Type ℓ} (o : Option A) (e : E) {a : A} → context o e ≡ ok a → o ≡ some a
context-eq-ok none e h = cc
context-eq-ok (some a) e h = cc

pub context_partial-eq-ok {ε ℓ} :
    {E : Type ε} {A : Type ℓ} (m : Partial A) (e : E) {a : A}
    → context_partial m e ≡ ok a
    → m ≡ ok a
context_partial-eq-ok (ok a) e h = cc
context_partial-eq-ok (err n) e h = cc
context_partial-eq-ok panic e h = cc

-- An error that neither step gives is not the error of the whole.
pub >>=-ne-err {ε ℓ κ} :
    {E : Type ε} {A : Type ℓ} {B : Type κ} (m : Outcome E A) (f : A → Outcome E B) {e : E}
    → m ≢ err e
    → ((a : A) → f a ≢ err e)
    → (m >>= f) ≢ err e
>>=-ne-err (ok a) f first rest h = rest a h
>>=-ne-err (err e') f first rest h = first (cc)
>>=-ne-err panic f first rest h = cc

-- A panic of neither step is no panic of the whole; the second step knows what the first gave.
pub >>=-ne-panic {ε ℓ κ} :
    {E : Type ε} {A : Type ℓ} {B : Type κ} (m : Outcome E A) (f : A → Outcome E B)
    → m ≢ panic
    → ((a : A) → m ≡ ok a → f a ≢ panic)
    → (m >>= f) ≢ panic
>>=-ne-panic (ok a) f first rest h = rest a refl h
>>=-ne-panic (err e) f first rest h = cc
>>=-ne-panic panic f first rest h = first refl

pub context-ne-panic {ε ℓ} : {E : Type ε} {A : Type ℓ} (o : Option A) (e : E) → context o e ≢ panic
context-ne-panic none e h = cc
context-ne-panic (some a) e h = cc

pub try-ne-panic {ℓ} : {A : Type ℓ} (o : Option A) → try o ≢ panic
try-ne-panic none h = cc
try-ne-panic (some a) h = cc

pub context_partial-ne-panic {ε ℓ} :
    {E : Type ε} {A : Type ℓ} (m : Partial A) (e : E) → m ≢ panic → context_partial m e ≢ panic
context_partial-ne-panic (ok a) e h p = cc
context_partial-ne-panic (err n) e h p = cc
context_partial-ne-panic panic e h p = h refl

-- A panic of the whole is the second step's where the first does not panic.
pub >>=-panics {ε ℓ κ} :
    {E : Type ε} {A : Type ℓ} {B : Type κ} (m : Outcome E A) (f : A → Outcome E B)
    → m ≢ panic
    → (m >>= f) ≡ panic
    → (a : A) × (m ≡ ok a) × (f a ≡ panic)
>>=-panics (ok a) f first h = (a, refl, h)
>>=-panics (err e) f first h = absurd (cc)
>>=-panics panic f first h = absurd (first refl)

pub ok-ne-panic {ε ℓ} : {E : Type ε} {A : Type ℓ} (a : A) → ◌≢◌ {A = Outcome E A} (ok a) panic
ok-ne-panic a h = cc

-- Steps that return, in a row.
pub ruleset no_panic =
    (>>=-ne-panic, context-ne-panic, context_partial-ne-panic, try-ne-panic, ok-ne-panic)
