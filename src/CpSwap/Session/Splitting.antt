-- ===== src/CpSwap/Session/Splitting.antt =====
-- Lemmas on an amount swapped in several parts against the amount swapped at once
-- (sega-cp-swap/src/calculator.rs).
use native.Mathlib.Nat.{le_trans, mul-le-mul_left, mul-le-mul_right}
use jupiter_amm_implementati.Base.{
  ℕ, ◌+◌, ◌*◌, ◌-◌, ◌≤◌, ◌≡◌, refl, Bool, true, false, List, [], ◌∷◌, map, ok, >>=_elim, ap, sym,
  ◌∙◌, arith,
}
use jupiter_amm_implementati.CpSwap.Fees.{fee_rate_denominator_value}
use jupiter_amm_implementati.CpSwap.Fees.Bounds.{fee_parts-le}
use jupiter_amm_implementati.CpSwap.Calculator.{SwapResult, FeeRates, swap_base_input}
use jupiter_amm_implementati.CpSwap.Calculator.Input.{swap_base_input-InputSteps}
use jupiter_amm_implementati.CpSwap.Calculator.Spec.{Covers, swap_base_input-IsSwapOf}
use jupiter_amm_implementati.CpSwap.Session.{
  Reserves, exact_in, turn, reserves_after, swap, execute, run,
}

abbrev pub sum : List ℕ → ℕ
sum [] = 0
sum (n ∷ ns) = n + sum ns

pub turn-turn : (b : Bool) (p : Reserves) → turn b (turn b p) ≡ p
turn-turn true p = refl
turn-turn false p = refl

-- Two payments in a row, the second from a source side with some more on it.
payments-join :
    (x y net more rest left last : ℕ)
    → x * y ≤ (x + net) * left
    → (x + net + more) * left ≤ (x + net + more + rest) * last
    → last ≤ left
    → x * y ≤ (x + net + rest) * last
payments-join x y net more rest left last first second below =
    omega (arith, first, second, mul-le-mul_left more below)

module _ (rates : FeeRates)
    (parts : rates.protocol_fee_rate + rates.fund_fee_rate ≤ fee_rate_denominator_value) where
  -- A run of exact inputs in one direction: its fees cover the rate of the whole, and for what they
  -- leave it pays no more than keeps the product.
  pub record IsSplit (amount : ℕ) (p q : Reserves) : Type 0 where
    pub fee : ℕ
    pub covers : Covers amount rates.trade_fee_rate fee
    pub inside : fee ≤ amount
    pub below : q.1 ≤ p.1
    pub keeps : p.0 * p.1 ≤ (p.0 + (amount - fee)) * q.1

  swap-IsSplit :
      (amount rest x y : ℕ) {r : SwapResult} {q : Reserves}
      → swap_base_input amount x y rates ≡ ok r
      → IsSplit rest (reserves_after r) q
      → IsSplit (amount + rest) (x, y) q
  swap-IsSplit amount rest x y {r} {q} h s =
      let steps = swap_base_input-InputSteps amount x y rates h in
      let spec = swap_base_input-IsSwapOf amount x y rates h in
      let (paid, kept) = spec.paid.0 in
      let set_aside =
        fee_parts-le r.trade_fee rates.protocol_fee_rate rates.fund_fee_rate parts steps.protocol
          steps.fund in
      let net = amount - r.trade_fee in
      let more = r.trade_fee - (r.protocol_fee + r.fund_fee) in
      let covered = spec.covered in
      let source : r.new_swap_source_amount - (r.protocol_fee + r.fund_fee) ≡ x + net + more =
        omega (arith, spec.new_source) in
      let later : (x + net + more) * (y - r.destination_amount_swapped)
          ≤ (x + net + more + (rest - s.fee)) * q.1 =
        rw (source, spec.new_destination) at s.keeps in
      let left : q.1 ≤ y - r.destination_amount_swapped = rw spec.new_destination at s.below in
      let inside = s.inside in
      let joined =
        payments-join x y net more (rest - s.fee) (y - r.destination_amount_swapped) q.1 kept later
          left in
      let all : x + (amount + rest - (r.trade_fee + s.fee)) ≡ x + net + (rest - s.fee) =
        omega arith in
      record {
        fee = r.trade_fee + s.fee;
        covers = omega (arith, spec.fee.0, s.covers);
        inside = omega arith;
        below = omega arith;
        keeps = rw all joined;
      }

  execute-IsSplit :
      (b : Bool) (amount rest : ℕ) (p : Reserves) {m q : Reserves}
      → execute rates (exact_in b amount) p ≡ ok m
      → IsSplit rest (turn b m) q
      → IsSplit (amount + rest) (turn b p) q
  unfolding execute swap
  execute-IsSplit b amount rest p {m} {q} h s =
      >>=_elim (swap rates (exact_in b amount) p) _ h λ r e h_0.
        let turned : turn b (reserves_after r) ≡ m = cc (h_0) in
        let after : turn b m ≡ reserves_after r =
          sym (ap (turn b) turned) ∙ turn-turn b (reserves_after r) in
        swap-IsSplit amount rest (turn b p).0 (turn b p).1 e (rw after at s)

  run-IsSplit :
      (b : Bool) (amounts : List ℕ) (p : Reserves) {q : Reserves}
      → run rates (map (exact_in b) amounts) p ≡ ok q
      → IsSplit (sum amounts) (turn b p) (turn b q)
  unfolding run
  run-IsSplit b [] p {q} h =
      let same : p ≡ q = cc (h) in
      rw same (record {
        fee = 0;
        covers = omega arith;
        inside = omega arith;
        below = omega arith;
        keeps = omega arith;
      })
  run-IsSplit b (amount ∷ amounts) p h =
      >>=_elim (execute rates (exact_in b amount) p) _ h
        λ m e h_0. execute-IsSplit b amount (sum amounts) p e (run-IsSplit b amounts m h_0)

  -- With a protocol rate and a fund rate that together are at most the denominator, an amount that is
  -- swapped in parts one after the other, with nobody else's swap between them, leaves at least as
  -- much of the destination token in the pool as the amount swapped at once.
  pub run-split :
      (b : Bool) (amounts : List ℕ) (p : Reserves) {q : Reserves} {r : SwapResult}
      → run rates (map (exact_in b) amounts) p ≡ ok q
      → swap_base_input (sum amounts) (turn b p).0 (turn b p).1 rates ≡ ok r
      → r.new_swap_destination_amount ≤ (turn b q).1
  run-split b amounts p {q} {r} h whole =
      let s = run-IsSplit b amounts p h in
      let spec = swap_base_input-IsSwapOf (sum amounts) (turn b p).0 (turn b p).1 rates whole in
      let least = spec.fee.1 s.fee s.covers in
      let inside = s.inside in
      let left = (turn b q).1 in
      let below = s.below in
      let wider : ((turn b p).0 + (sum amounts - s.fee)) * left
          ≤ ((turn b p).0 + (sum amounts - r.trade_fee)) * left =
        mul-le-mul_right left (omega arith) in
      let back : (turn b p).1 - ((turn b p).1 - left) ≡ left = omega arith in
      let paid =
        spec.paid.1 ((turn b p).1 - left) (omega arith, rw back (le_trans s.keeps wider)) in
      omega (arith, spec.new_destination)
