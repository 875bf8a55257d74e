-- ===== src/Amms/Interface/SwapInstruction/Verdict.antt =====
-- What it means that the test of a swap passes (`assert_quote_matches_simulated_swap` in
-- jupiter-core/src/amms/test_harness.rs), for any AMM and for the Sega pool.
use jupiter_amm_implementati.Base.{
  ℕ, zero, suc, ◌≤◌, ◌≡◌, ◌↔◌, refl, Bool, true, false, not, Option, none, some, List, Outcome, ok,
  err, panic, ◌>>◌, >>=_elim, unwrap, Option-cases, inl, inr, leb, ◌==◌, Profile, arith,
}
use jupiter_amm_implementati.Chain
use jupiter_amm_implementati.Chain.{Bytes, AccountMeta, SwapMode, exact_in, exact_out, ClockRef}
use jupiter_amm_implementati.Amms.Error.{Error}
use jupiter_amm_implementati.Amms.External.{External}
use jupiter_amm_implementati.Amms.Interface.{Amm}
use jupiter_amm_implementati.BuildSwapTransaction.Accounts.{JupiterAccounts}
use jupiter_amm_implementati.BuildSwapTransaction.InstructionData.{JupiterInstruction}
use jupiter_amm_implementati.Amms.Interface.SwapInstruction.{
  TestSetUp, TestSwap, quote_params, test_swap,
}
use jupiter_amm_implementati.Amms.Interface.SwapInstruction.Steps.{test_swap-quotes}
use jupiter_amm_implementati.Amms.Interface.SwapInstruction.Simulation.{
  ProgramTest, AnyhowErrors, Simulation, assert_, abs_diff, simulate, check_quote, check_error,
  benchmark, check_simulation, assert_quote_matches_simulated_swap,
}

-- The quote is as near to the simulation as the test asks for.
abbrev pub Agrees : {D : Type 0} → SwapMode → ℕ → ℕ → Chain.Quote D → Simulation → Type 0
Agrees exact_in tolerance amount quote s =
    abs_diff quote.out_amount s.destination_token_account_diff ≤ tolerance
Agrees exact_out tolerance amount quote s =
    (abs_diff quote.in_amount s.source_token_account_diff ≤ tolerance)
    × (amount ≡ s.destination_token_account_diff)

assert__iff : (b : Bool) → (assert_ b ≡ ok tt) ↔ (b ≡ true)
assert__iff true = (λ h. refl, λ h. refl)
assert__iff false = (λ h. cc (h), λ h. cc (h))

assert_-leb_iff : (a b : ℕ) → (assert_ (leb a b) ≡ ok tt) ↔ (a ≤ b)
assert_-leb_iff a b = ground arith

assert_-==_iff : (a b : ℕ) → (assert_ (a == b) ≡ ok tt) ↔ (a ≡ b)
assert_-==_iff a b = ground arith

unwrap-eq-ok : {A : Type 0} (o : Option A) {a : A} → unwrap {E = Error} o ≡ ok a → o ≡ some a
unwrap-eq-ok none h = cc
unwrap-eq-ok (some a) h = cc

not-true : (b : Bool) → not b ≡ true → b ≡ false
not-true true h = absurd (cc (h))
not-true false h = refl

>>_iff : (m k : Outcome Error (Unit {0})) → ((m >> k) ≡ ok tt) ↔ ((m ≡ ok tt) × (k ≡ ok tt))
>>_iff (ok tt) k = (λ h. (refl, h), λ h. h.1)
>>_iff (err e) k = (λ h. absurd (cc (h)), λ h. absurd (cc (h.0)))
>>_iff panic k = (λ h. absurd (cc (h)), λ h. absurd (cc (h.0)))

↔_× : {A B C D : Type 0} → A ↔ B → C ↔ D → (A × C) ↔ (B × D)
↔_× f g = (λ (a, c). (f.0 a, g.0 c), λ (b, d). (f.1 b, g.1 d))

check_quote_iff :
    {D : Type 0} (mode : SwapMode) (tolerance amount : ℕ) (q : Chain.Quote D) (s : Simulation)
    → (check_quote mode tolerance amount q s ≡ ok tt) ↔ Agrees mode tolerance amount q s
check_quote_iff exact_in tolerance amount q s = assert_-leb_iff _ _
check_quote_iff exact_out tolerance amount q s =
    let split =
      >>_iff (assert_ (leb (abs_diff q.in_amount s.source_token_account_diff) tolerance))
        (assert_ (amount == s.destination_token_account_diff)) in
    let parts =
      ↔_× (assert_-leb_iff (abs_diff q.in_amount s.source_token_account_diff) tolerance)
        (assert_-==_iff amount s.destination_token_account_diff) in
    (λ h. parts.0 (split.0 h), λ h. split.1 (parts.1 h))

module _ (errors : AnyhowErrors) where
  open errors use {AnchorError, downcast_ref, eq, same_text}

  -- The errors are equal as anchor errors, or by their texts where none is expected.
  pub data SameError (expected quote_err : Error) : Type 0 where
    same_anchor :
        (a b : AnchorError)
        → downcast_ref expected ≡ some a
        → downcast_ref quote_err ≡ some b
        → eq a b ≡ true
        → SameError expected quote_err
    same_text_ :
        downcast_ref expected ≡ none
        → same_text expected quote_err ≡ true
        → SameError expected quote_err

  check_error→SameError :
      (expected quote_err : Error)
      → check_error errors expected quote_err ≡ ok tt
      → SameError expected quote_err
  check_error→SameError expected quote_err h = elim (Option-cases (downcast_ref expected)) [
    | inl (a, e) ↦ elim (Option-cases (downcast_ref quote_err)) [
      | inl (b, e') ↦ same_anchor a b e e' ((assert__iff (eq a b)).0 (rw (e, e', check_error) at h))
      | inr e' ↦ absurd (cc (rw (e, e', check_error) at h))
    ]
    | inr e ↦
        same_text_ e ((assert__iff (same_text expected quote_err)).0 (rw (e, check_error) at h))
  ]

  SameError→check_error :
      (expected quote_err : Error)
      → SameError expected quote_err
      → check_error errors expected quote_err ≡ ok tt
  SameError→check_error expected quote_err (same_anchor a b e e' h) =
      rw (e, e', check_error) ((assert__iff (eq a b)).1 h)
  SameError→check_error expected quote_err (same_text_ e h) =
      rw (e, check_error) ((assert__iff (same_text expected quote_err)).1 h)

  module _ (context : ProgramTest) (set_up : TestSetUp)
      (to_account_metas : JupiterAccounts → List AccountMeta) (data_of : JupiterInstruction → Bytes)
      (ext : External) (amm : Amm ext) (profile : Profile) (clock : ClockRef)
      (self : amm.State) where
    open set_up use {user, test}

    -- What a test accepts: without an expected error, a swap that succeeds and a quote of the AMM for
    -- the amount of the swap, as near to the simulation as asked for; else a swap that fails, and the
    -- error that the search kept.
    abbrev pub Accepts : Option Error → TestSwap ext.decimals.D → Simulation → Type 0
    Accepts none swap s =
        (s.succeeded ≡ true)
        × ((q : Chain.Quote ext.decimals.D) × (swap.found.quote_result ≡ some q)
            × (amm.quote profile clock self (quote_params set_up swap.found.amount) ≡ ok q)
            × Agrees test.swap_mode test.tolerance swap.found.amount q s)
    Accepts (some expected) swap s =
        (s.succeeded ≡ false)
        × ((e : Error) × (swap.found.quote_err ≡ some e) × SameError expected e)

    benchmark-passes :
        (n amount : ℕ) (q : Chain.Quote ext.decimals.D)
        → amm.quote profile clock self (quote_params set_up amount) ≡ ok q
        → benchmark errors context set_up to_account_metas data_of ext amm profile clock self n
            amount
          ≡ ok tt
    benchmark-passes zero amount q h = refl
    benchmark-passes (suc n) amount q h = rw h (benchmark-passes n amount q h)

    check_simulation-Accepts :
        (expected : Option Error) {swap : TestSwap ext.decimals.D} (s : Simulation)
        → test_swap set_up to_account_metas data_of ext amm profile clock self ≡ ok swap
        → (check_simulation errors context set_up to_account_metas data_of ext amm profile clock
              self expected swap s
            ≡ ok tt)
          ↔ Accepts expected swap s
    check_simulation-Accepts none {swap} s made = (
      λ h.
          let (succeeded, h_0) = (>>_iff (assert_ s.succeeded) _).0 h in
          >>=_elim (unwrap swap.found.quote_result) _ h_0 λ q e h_1.
            let some_ = unwrap-eq-ok swap.found.quote_result e in
            let (near, _) =
              (>>_iff (check_quote test.swap_mode test.tolerance swap.found.amount q s) _).0 h_1 in
            (
              (assert__iff s.succeeded).0 succeeded,
              (
                q,
                some_,
                test_swap-quotes set_up to_account_metas data_of ext amm profile clock self made
                    some_,
                (check_quote_iff test.swap_mode test.tolerance swap.found.amount q s).0 near,
              ),
            ),
      λ (succeeded, (q, some_, quoted, near)).
          let checked =
            (check_quote_iff test.swap_mode test.tolerance swap.found.amount q s).1 near in
          let timed = benchmark-passes 100 swap.found.amount q quoted in
          let rest =
            (>>_iff (check_quote test.swap_mode test.tolerance swap.found.amount q s) _).1
              (checked, timed) in
          (>>_iff (assert_ s.succeeded) _).1 ((assert__iff s.succeeded).1 succeeded, rw some_ rest),
    )
    check_simulation-Accepts (some expected) {swap} s made = (
      λ h. >>=_elim (unwrap swap.found.quote_err) _ h λ e e_0 h_0.
          let (same, failed) = (>>_iff (check_error errors expected e) _).0 h_0 in
          (
            not-true s.succeeded ((assert__iff (not s.succeeded)).0 failed),
            (e, unwrap-eq-ok swap.found.quote_err e_0, check_error→SameError expected e same),
          ),
      λ (failed, (e, kept, same)). rw (kept, SameError→check_error expected e same, failed) refl,
    )

    -- A test passes if and only if what is simulated is accepted.
    pub assert_quote_matches_simulated_swap-Accepts_iff :
        (assert_quote_matches_simulated_swap errors context set_up to_account_metas data_of ext amm
            profile clock self
          ≡ ok tt)
        ↔ ((swap : TestSwap ext.decimals.D) × (s : Simulation) × (test_swap set_up to_account_metas
                data_of ext amm profile clock self
              ≡ ok swap)
            × (simulate context user.pubkey swap.accounts.user_source_token_account
                  swap.accounts.user_destination_token_account swap.instruction
                ≡ ok s)
            × Accepts test.expected_error swap s)
    unfolding assert_quote_matches_simulated_swap
    assert_quote_matches_simulated_swap-Accepts_iff = (
      λ h.
          >>=_elim (test_swap set_up to_account_metas data_of ext amm profile clock self) _ h
            λ swap made h_0.
              >>=_elim
                (simulate context user.pubkey swap.accounts.user_source_token_account
                  swap.accounts.user_destination_token_account swap.instruction)
                _ h_0
                λ s simulated h_1. (
                  swap,
                  s,
                  made,
                  simulated,
                  (check_simulation-Accepts test.expected_error s made).0 h_1,
                ),
      λ (swap, s, made, simulated, accepted).
          rw (made, simulated) ((check_simulation-Accepts test.expected_error s made).1 accepted),
    )
