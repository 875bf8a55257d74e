-- ===== src/Base/Method.antt =====
-- A Rust method on `&mut self`: what it wrote before an error or a panic stays written.
use jupiter_amm_implementati.Base.Results.{Outcome, ok, err, panic}

abbrev pub Method : Type 0 → Type 0 → Type 0 → Type 0
Method E S A = S → Outcome E A × S

infixl 5 ◌>>=◌ ◌>>◌
abbrev pub ◌>>=◌ : {E S A B : Type 0} → Method E S A → (A → Method E S B) → Method E S B
◌>>=◌ m f s =
    let (r, s') = m s in elim r [ ok a ↦ f a s' | err e ↦ (err e, s') | panic ↦ (panic, s') ]

abbrev pub ◌>>◌ : {E S B : Type 0} → Method E S (Unit {0}) → Method E S B → Method E S B
m >> k = m >>= λ _. k

-- A call that does not write to `self`.
abbrev pub lift : {E S A : Type 0} → Outcome E A → Method E S A
lift r s = (r, s)

abbrev pub gets : {E S A : Type 0} → (S → A) → Method E S A
gets f s = (ok (f s), s)

abbrev pub modify : {E S : Type 0} → (S → S) → Method E S (Unit {0})
modify f s = (ok tt, f s)
