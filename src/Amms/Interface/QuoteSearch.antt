-- ===== src/Amms/Interface/QuoteSearch.antt =====
-- The search of the harness for an amount that an AMM quotes (jupiter-core/src/amms/test_harness.rs,
-- the loop of `assert_quote_matches_simulated_swap`).
use native.Mathlib.Nat.{div-div-eq-div-mul, pow-succ'}
use jupiter_amm_implementati.Base.{
  ℕ, zero, suc, ◌^◌, ◌/◌, ◌<◌, ◌≤◌, ◌≡◌, ◌≢◌, ◌∙◌, sym, ap, refl, Option, none, some, Outcome, ok,
  err, panic, Profile, arith, Outcome-cases, inl, inr, ◌⊎◌,
}
use jupiter_amm_implementati.Chain
use jupiter_amm_implementati.Chain.{ClockRef, QuoteParams}
use jupiter_amm_implementati.Amms.Error.{Error}
use jupiter_amm_implementati.Amms.External.{External}
use jupiter_amm_implementati.Amms.Interface.{Amm}

-- What the search of the harness leaves: its last amount, the quote and the last error.
pub record Found (D : Type 0) : Type 0 where
  pub amount : ℕ
  pub quote_result : Option (Chain.Quote D)
  pub quote_err : Option Error

-- The amount after `n` halvings.
abbrev pub halved : ℕ → ℕ → ℕ
halved amount n = amount / 2 ^ n

halved-suc : (amount n : ℕ) → halved (amount / 2) n ≡ halved amount (suc n)
halved-suc amount n =
    div-div-eq-div-mul amount 2 (2 ^ n) ∙ ap (λ d. amount / d) (sym (pow-succ' 2 n))

module _ (ext : External) (amm : Amm ext) where
  open amm use {State, quote}
  open ext use {decimals.{D}}

  -- The loop of `assert_quote_matches_simulated_swap`: the amount is halved before every quote, until
  -- there is one or the tries are used up.
  module _ (profile : Profile) (clock : ClockRef) (params : ℕ → QuoteParams) (self : State) where
    halve_until_quoted : ℕ → Option Error → ℕ → Outcome Error (Found D)
    halve_until_quoted zero quote_err amount =
        ok (record { amount = amount; quote_result = none; quote_err = quote_err })
    halve_until_quoted (suc tries) quote_err amount =
        elim (quote profile clock self (params (amount / 2))) [
          | ok q ↦ ok (record { amount = amount / 2; quote_result = some q; quote_err = quote_err })
          | err e ↦ halve_until_quoted tries (some e) (amount / 2)
          | panic ↦ panic
        ]

    unfoldable pub find_quote : ℕ → Outcome Error (Found D)
    unfolding halve_until_quoted
    find_quote amount = halve_until_quoted 10 none amount

    -- The quote of an amount fails.
    abbrev pub Fails : ℕ → Type 0
    Fails amount = (e : Error) × (quote profile clock self (params amount) ≡ err e)

    -- The tries that fail come first; then there is the first quote, or no try is left.
    pub record IsFirst (amount tries : ℕ) (found : Found D) : Type 0 where
      pub failed : ℕ
      pub fails : (n : ℕ) → 0 < n → n ≤ failed → Fails (halved amount n)
      pub ends :
          ((q : Chain.Quote D) × (failed < tries)
            × (found.amount ≡ halved amount (suc failed))
            × (found.quote_result ≡ some q)
            × (quote profile clock self (params found.amount) ≡ ok q))
          ⊎ ((failed ≡ tries) × (found.amount ≡ halved amount tries) × (found.quote_result ≡ none))

    Fails-suc :
        (amount failed : ℕ)
        → Fails (amount / 2)
        → ((n : ℕ) → 0 < n → n ≤ failed → Fails (halved (amount / 2) n))
        → (n : ℕ) → 0 < n
        → n ≤ suc failed
        → Fails (halved amount n)
    Fails-suc amount failed first rest zero pos below = absurd (omega arith)
    Fails-suc amount failed first rest (suc zero) pos below = first
    Fails-suc amount failed first rest (suc (suc n)) pos below =
        rw (← halved-suc amount (suc n)) (rest (suc n) (omega arith) (omega arith))

    IsFirst-suc :
        (amount tries : ℕ) (found : Found D)
        → Fails (amount / 2)
        → IsFirst (amount / 2) tries found
        → IsFirst amount (suc tries) found
    IsFirst-suc amount tries found first rest = record {
      failed = suc rest.failed;
      fails = Fails-suc amount rest.failed first rest.fails;
      ends = elim rest.ends [
        | inl (q, below, at, some_, e) ↦
            inl (q, omega arith, at ∙ halved-suc amount (suc rest.failed), some_, e)
        | inr (all, at, none_) ↦ inr (ap suc all, at ∙ halved-suc amount tries, none_)
      ];
    }

    halve_until_quoted-IsFirst :
        (tries : ℕ) (quote_err : Option Error) (amount : ℕ)
        → ((a : ℕ) → a ≤ amount → quote profile clock self (params a) ≢ panic)
        → (found : Found D) × (halve_until_quoted tries quote_err amount ≡ ok found)
          × IsFirst amount tries found
    unfolding halve_until_quoted
    halve_until_quoted-IsFirst zero quote_err amount returns = (
      _,
      refl,
      record {
        failed = 0;
        fails = λ n pos below. absurd (omega arith);
        ends = inr (refl, omega arith, refl);
      },
    )
    halve_until_quoted-IsFirst (suc tries) quote_err amount returns =
        elim (Outcome-cases (quote profile clock self (params (amount / 2)))) [
          | inl (q, e) ↦
              let found : Found D = record {
                amount = amount / 2;
                quote_result = some q;
                quote_err = quote_err;
              } in
              (
                found,
                rw (e, halve_until_quoted) refl,
                record {
                  failed = 0;
                  fails = λ n pos below. absurd (omega arith);
                  ends = inl (q, omega arith, refl, refl, e);
                },
              )
          | inr (inl (problem, e)) ↦
              let (found, done, first) =
                halve_until_quoted-IsFirst tries (some problem) (amount / 2)
                  (λ a below. returns a (omega arith)) in
              (
                found,
                rw (e, halve_until_quoted) done,
                IsFirst-suc amount tries found (problem, e) first,
              )
          | inr (inr e) ↦ absurd (returns (amount / 2) (omega arith) e)
        ]

    -- If quoting does not panic at any amount up to the given one, the harness's search returns: with the first of the ten
    -- amounts, each half of the one before, that has a quote, after all before it failed; or with no
    -- quote and the last amount, if all ten fail.
    pub find_quote-IsFirst :
        (amount : ℕ)
        → ((a : ℕ) → a ≤ amount → quote profile clock self (params a) ≢ panic)
        → (found : Found D) × (find_quote amount ≡ ok found) × IsFirst amount 10 found
    unfolding find_quote
    find_quote-IsFirst amount returns = halve_until_quoted-IsFirst 10 none amount returns

    halve_until_quoted-quotes :
        (tries : ℕ) (quote_err : Option Error) (amount : ℕ) {found : Found D} {q : Chain.Quote D}
        → halve_until_quoted tries quote_err amount ≡ ok found
        → found.quote_result ≡ some q
        → quote profile clock self (params found.amount) ≡ ok q
    unfolding halve_until_quoted
    halve_until_quoted-quotes zero quote_err amount h some_ = absurd (cc (h, some_))
    halve_until_quoted-quotes (suc tries) quote_err amount {q = q} h some_ =
        elim (Outcome-cases (quote profile clock self (params (amount / 2)))) [
          | inl (first, e) ↦
              let left = rw (e, halve_until_quoted) at h in
              let same : first ≡ q = cc (left, some_) in rw (← same) (cc (left, e))
          | inr (inl (problem, e)) ↦
              halve_until_quoted-quotes tries (some problem) (amount / 2)
                (rw (e, halve_until_quoted) at h) some_
          | inr (inr e) ↦ absurd (cc (rw (e, halve_until_quoted) at h))
        ]

    -- A quote that the search leaves is the AMM's for the amount that it leaves.
    pub find_quote-quotes :
        (amount : ℕ) {found : Found D} {q : Chain.Quote D}
        → find_quote amount ≡ ok found
        → found.quote_result ≡ some q
        → quote profile clock self (params found.amount) ≡ ok q
    unfolding find_quote
    find_quote-quotes amount h some_ = halve_until_quoted-quotes 10 none amount h some_
