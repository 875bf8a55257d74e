-- ===== src/Amms/Interface/SwapInstruction/Balances.antt =====
-- The test of a swap in terms of the token accounts of the user before and after it
-- (`assert_quote_matches_simulated_swap` in jupiter-core/src/amms/test_harness.rs).
use jupiter_amm_implementati.Base.{
  ℕ, ◌+◌, ◌-◌, ◌≤◌, ◌≡◌, ◌↔◌, refl, Bool, Option, none, some, [], ◌∷◌, ok, >>=_elim, unwrap,
  checked_sub, arith,
}
use jupiter_amm_implementati.Chain
use jupiter_amm_implementati.Chain.{
  Bytes, Pubkey, AccountMeta, SwapMode, exact_in, exact_out, ClockRef,
}
use jupiter_amm_implementati.Amms.Error.{Error}
use jupiter_amm_implementati.Amms.Interface.SwapInstruction.{Instruction}
use jupiter_amm_implementati.Amms.Interface.SwapInstruction.Simulation.{
  ProgramTest, Simulation, TokenAmounts, abs_diff, simulate,
}
use jupiter_amm_implementati.Amms.Interface.SwapInstruction.Verdict.{Agrees}

-- What two token accounts hold before a transaction and after it.
pub record Balances : Type 0 where
  pub source_before : ℕ
  pub source_after : ℕ
  pub destination_before : ℕ
  pub destination_after : ℕ

pub record AreRead (before after : TokenAmounts) (source destination : Pubkey) (b : Balances)
    : Type 0 where
  pub source_first : before source ≡ some b.source_before
  pub destination_first : before destination ≡ some b.destination_before
  pub source_then : after source ≡ some b.source_after
  pub destination_then : after destination ≡ some b.destination_after
  pub source_falls : b.source_after ≤ b.source_before
  pub destination_rises : b.destination_before ≤ b.destination_after

-- The transaction of a swap is signed by the payer and the user, and sets the limit of its compute
-- units first.
abbrev pub ran : ProgramTest → ℕ → Pubkey → Instruction → Bool × TokenAmounts
ran context blockhash user swap_ix =
    context.banks_client.process_transaction_with_preflight
      (context.set_compute_unit_limit 1_400_000 ∷ swap_ix ∷ []) context.payer
      (context.payer ∷ user ∷ []) blockhash

abbrev pub differences : Bool → Balances → Simulation
differences succeeded b = record {
  succeeded = succeeded;
  source_token_account_diff = b.source_before - b.source_after;
  destination_token_account_diff = b.destination_after - b.destination_before;
}

-- A checked difference of two amounts that are read.
difference_elim :
    {P : Type 0} (a b : ℕ) {d : ℕ}
    → unwrap {E = Error} (checked_sub a b) ≡ ok d
    → (b ≤ a → a - b ≡ d → P)
    → P
difference_elim a b {d} h k = let both : (b ≤ a) × (a - b ≡ d) = ground arith in k both.0 both.1

checked_sub_ok : (a b : ℕ) → b ≤ a → checked_sub a b ≡ some (a - b)
checked_sub_ok a b h = ground arith

pub unwrap-eq-ok : {A : Type 0} (o : Option A) {a : A} → unwrap {E = Error} o ≡ ok a → o ≡ some a
unwrap-eq-ok none h = cc
unwrap-eq-ok (some a) h = cc

module _ (context : ProgramTest) (blockhash : ℕ)
    (fresh : context.banks_client.latest_blockhash ≡ some blockhash)
    (user source destination : Pubkey) (swap_ix : Instruction) where
  open context use {banks_client}

  pub simulate-AreRead :
      {s : Simulation}
      → simulate context user source destination swap_ix ≡ ok s
      → (b : Balances) × AreRead banks_client.token_amounts
          (ran context blockhash user swap_ix).1
          source
          destination
          b
        × (differences (ran context blockhash user swap_ix).0 b ≡ s)
  unfolding simulate
  simulate-AreRead {s} h =
      let after = (ran context blockhash user swap_ix).1 in
      let h_0 = rw fresh at h in
      >>=_elim (unwrap (banks_client.token_amounts source)) _ h_0 λ sb e_1 h_1.
        >>=_elim (unwrap (banks_client.token_amounts destination)) _ h_1 λ db e_2 h_2.
          >>=_elim (unwrap (after source)) _ h_2 λ sa e_3 h_3.
            >>=_elim (unwrap (after destination)) _ h_3 λ da e_4 h_4.
              >>=_elim (unwrap (checked_sub sb sa)) _ h_4 λ taken e_5 h_5.
                >>=_elim (unwrap (checked_sub da db)) _ h_5 λ paid e_6 h_6.
                  difference_elim sb sa e_5 λ falls is_taken.
                    difference_elim da db e_6 λ rises is_paid. (
                      record {
                        source_before = sb;
                        source_after = sa;
                        destination_before = db;
                        destination_after = da;
                      },
                      record {
                        source_first = unwrap-eq-ok _ e_1;
                        destination_first = unwrap-eq-ok _ e_2;
                        source_then = unwrap-eq-ok _ e_3;
                        destination_then = unwrap-eq-ok _ e_4;
                        source_falls = falls;
                        destination_rises = rises;
                      },
                      cc (h_6, is_taken, is_paid),
                    )

  pub AreRead-simulate :
      (b : Balances)
      → AreRead banks_client.token_amounts
          (ran context blockhash user swap_ix).1
          source
          destination
          b
      → simulate context user source destination swap_ix
        ≡ ok (differences (ran context blockhash user swap_ix).0 b)
  unfolding simulate
  AreRead-simulate b r =
      let taken = checked_sub_ok b.source_before b.source_after r.source_falls in
      let paid = checked_sub_ok b.destination_after b.destination_before r.destination_rises in
      rw
        (fresh, r.source_first, r.destination_first, r.source_then, r.destination_then, taken, paid)
        refl

-- What the user is paid, or pays, is as near to the quote as the tolerance.
abbrev pub IsNear : {D : Type 0} → SwapMode → ℕ → ℕ → Chain.Quote D → Balances → Type 0
IsNear exact_in tolerance amount q b =
    (q.out_amount + b.destination_before ≤ b.destination_after + tolerance)
    × (b.destination_after ≤ b.destination_before + q.out_amount + tolerance)
IsNear exact_out tolerance amount q b =
    (q.in_amount + b.source_after ≤ b.source_before + tolerance)
    × (b.source_before ≤ b.source_after + q.in_amount + tolerance)
    × (b.destination_before + amount ≡ b.destination_after)

near_iff :
    (quoted more less tolerance : ℕ)
    → less ≤ more
    → (abs_diff quoted (more - less) ≤ tolerance)
      ↔ ((quoted + less ≤ more + tolerance) × (more ≤ less + quoted + tolerance))
near_iff quoted more less tolerance h = ground arith

pub Agrees-IsNear_iff :
    {D : Type 0} (mode : SwapMode) (tolerance amount : ℕ) (q : Chain.Quote D) (succeeded : Bool)
    (b : Balances)
    → b.source_after ≤ b.source_before
    → b.destination_before ≤ b.destination_after
    → Agrees mode tolerance amount q (differences succeeded b) ↔ IsNear mode tolerance amount q b
Agrees-IsNear_iff exact_in tolerance amount q succeeded b falls rises =
    near_iff q.out_amount b.destination_after b.destination_before tolerance rises
Agrees-IsNear_iff exact_out tolerance amount q succeeded b falls rises =
    let near = near_iff q.in_amount b.source_before b.source_after tolerance falls in
    (
      λ (close, exact). let (low, high) = near.0 close in (low, high, omega arith),
      λ (low, high, exact). (near.1 (low, high), omega arith),
    )
