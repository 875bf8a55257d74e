-- ===== src/Tests/Wire.antt =====
-- A concrete wire format: every field is one byte, and the route plan comes last.
use jupiter_amm_implementati.Base.{
  zero, suc, ℕ, ◌≡◌, ◌∙◌, sym, ap, refl, Bool, true, false, List, [], ◌∷◌, ◌==◌, if◌then◌else◌,
}
use jupiter_amm_implementati.Chain.{Bytes, Swap, raydium_cp, token_swap, exact_out}
use jupiter_amm_implementati.BuildSwapTransaction.InstructionData.{
  RoutePlanStep, JupiterInstruction, BuildSwapInstructionDataParams, instruction, route,
  exact_out_route, route_with_token_ledger, shared_accounts_route, shared_accounts_exact_out_route,
  shared_accounts_route_with_token_ledger, build_swap_instruction_data,
}
use jupiter_amm_implementati.BuildSwapTransaction.Agreement.{
  Kind, shared_with_ledger, shared_in, shared_out, with_ledger, plain_in, plain_out, kind_of_data,
}
use jupiter_amm_implementati.BuildSwapTransaction.Wire.{
  IsWire, data_of, asked_content, build_swap_instruction_data-content,
}

abbrev byte_of : Swap → ℕ
byte_of raydium_cp = 0
byte_of token_swap = 1

abbrev swap_of_byte : ℕ → Swap
swap_of_byte n = if n == 0 then raydium_cp else token_swap

swap_of_byte-byte_of : (s : Swap) → swap_of_byte (byte_of s) ≡ s
swap_of_byte-byte_of raydium_cp = refl
swap_of_byte-byte_of token_swap = refl

abbrev write_plan : List RoutePlanStep → Bytes
write_plan [] = []
write_plan (s ∷ steps) =
    byte_of s.swap ∷ s.percent ∷ s.input_index ∷ s.output_index ∷ write_plan steps

abbrev read_plan : Bytes → List RoutePlanStep
read_plan (s ∷ p ∷ i ∷ o ∷ rest) =
    (record { swap = swap_of_byte s; percent = p; input_index = i; output_index = o })
    ∷ read_plan rest
read_plan (s ∷ p ∷ i ∷ []) = []
read_plan (s ∷ p ∷ []) = []
read_plan (s ∷ []) = []
read_plan [] = []

read_plan-write_plan : (plan : List RoutePlanStep) → read_plan (write_plan plan) ≡ plan
read_plan-write_plan [] = refl
read_plan-write_plan (s ∷ steps) = rw (swap_of_byte-byte_of s.swap, read_plan-write_plan steps)

abbrev serialize : JupiterInstruction → Bytes
serialize (route i) =
    i.in_amount
    ∷ i.quoted_out_amount
    ∷ i.slippage_bps
    ∷ i.platform_fee_bps
    ∷ write_plan i.route_plan
serialize (exact_out_route i) =
    i.out_amount
    ∷ i.quoted_in_amount
    ∷ i.slippage_bps
    ∷ i.platform_fee_bps
    ∷ write_plan i.route_plan
serialize (route_with_token_ledger i) =
    i.quoted_out_amount ∷ i.slippage_bps ∷ i.platform_fee_bps ∷ write_plan i.route_plan
serialize (shared_accounts_route i) =
    i.id
    ∷ i.in_amount
    ∷ i.quoted_out_amount
    ∷ i.slippage_bps
    ∷ i.platform_fee_bps
    ∷ write_plan i.route_plan
serialize (shared_accounts_exact_out_route i) =
    i.id
    ∷ i.out_amount
    ∷ i.quoted_in_amount
    ∷ i.slippage_bps
    ∷ i.platform_fee_bps
    ∷ write_plan i.route_plan
serialize (shared_accounts_route_with_token_ledger i) =
    i.id ∷ i.quoted_out_amount ∷ i.slippage_bps ∷ i.platform_fee_bps ∷ write_plan i.route_plan

abbrev byte : ℕ → Bytes → ℕ
byte n [] = 0
byte zero (b ∷ bs) = b
byte (suc n) (b ∷ bs) = byte n bs

abbrev after : ℕ → Bytes → Bytes
after zero bs = bs
after (suc n) [] = []
after (suc n) (b ∷ bs) = after n bs

abbrev read : Kind → Bytes → JupiterInstruction
read plain_in bs = route (record {
  in_amount = byte 0 bs;
  quoted_out_amount = byte 1 bs;
  slippage_bps = byte 2 bs;
  platform_fee_bps = byte 3 bs;
  route_plan = read_plan (after 4 bs);
})
read plain_out bs = exact_out_route (record {
  out_amount = byte 0 bs;
  quoted_in_amount = byte 1 bs;
  slippage_bps = byte 2 bs;
  platform_fee_bps = byte 3 bs;
  route_plan = read_plan (after 4 bs);
})
read with_ledger bs = route_with_token_ledger (record {
  quoted_out_amount = byte 0 bs;
  slippage_bps = byte 1 bs;
  platform_fee_bps = byte 2 bs;
  route_plan = read_plan (after 3 bs);
})
read shared_in bs = shared_accounts_route (record {
  id = byte 0 bs;
  in_amount = byte 1 bs;
  quoted_out_amount = byte 2 bs;
  slippage_bps = byte 3 bs;
  platform_fee_bps = byte 4 bs;
  route_plan = read_plan (after 5 bs);
})
read shared_out bs = shared_accounts_exact_out_route (record {
  id = byte 0 bs;
  out_amount = byte 1 bs;
  quoted_in_amount = byte 2 bs;
  slippage_bps = byte 3 bs;
  platform_fee_bps = byte 4 bs;
  route_plan = read_plan (after 5 bs);
})
read shared_with_ledger bs = shared_accounts_route_with_token_ledger (record {
  id = byte 0 bs;
  quoted_out_amount = byte 1 bs;
  slippage_bps = byte 2 bs;
  platform_fee_bps = byte 3 bs;
  route_plan = read_plan (after 4 bs);
})

read-serialize : (i : JupiterInstruction) → read (kind_of_data i) (serialize i) ≡ i
read-serialize (route i) =
    ap (λ plan. route (record i { route_plan = plan })) (read_plan-write_plan i.route_plan)
read-serialize (exact_out_route i) =
    ap (λ plan. exact_out_route (record i { route_plan = plan }))
      (read_plan-write_plan i.route_plan)
read-serialize (route_with_token_ledger i) =
    ap (λ plan. route_with_token_ledger (record i { route_plan = plan }))
      (read_plan-write_plan i.route_plan)
read-serialize (shared_accounts_route i) =
    ap (λ plan. shared_accounts_route (record i { route_plan = plan }))
      (read_plan-write_plan i.route_plan)
read-serialize (shared_accounts_exact_out_route i) =
    ap (λ plan. shared_accounts_exact_out_route (record i { route_plan = plan }))
      (read_plan-write_plan i.route_plan)
read-serialize (shared_accounts_route_with_token_ledger i) =
    ap (λ plan. shared_accounts_route_with_token_ledger (record i { route_plan = plan }))
      (read_plan-write_plan i.route_plan)

-- Any instruction can be read back.
abbrev AnyInstruction : JupiterInstruction → Type 0
AnyInstruction i = Unit

readable :
    (i j : JupiterInstruction)
    → AnyInstruction i
    → AnyInstruction j
    → kind_of_data i ≡ kind_of_data j
    → serialize i ≡ serialize j
    → i ≡ j
readable i j _ _ k e =
    let same : read (kind_of_data i) (serialize i) ≡ read (kind_of_data j) (serialize j) =
      cc (k, e) in
    sym (read-serialize i) ∙ same ∙ read-serialize j

abbrev number : Kind → ℕ
number shared_with_ledger = 0
number shared_in = 1
number shared_out = 2
number with_ledger = 3
number plain_in = 4
number plain_out = 5

abbrev kind_of_number : ℕ → Kind
kind_of_number n =
    if n == 0
    then shared_with_ledger
    else if n == 1
    then shared_in
    else if n == 2
    then shared_out
    else if n == 3
    then with_ledger
    else if n == 4
    then plain_in
    else plain_out

kind_of_number-number : (k : Kind) → kind_of_number (number k) ≡ k
kind_of_number-number shared_with_ledger = refl
kind_of_number-number shared_in = refl
kind_of_number-number shared_out = refl
kind_of_number-number with_ledger = refl
kind_of_number-number plain_in = refl
kind_of_number-number plain_out = refl

abbrev discriminator : Kind → Bytes
discriminator k = number k ∷ 0 ∷ 0 ∷ 0 ∷ 0 ∷ 0 ∷ 0 ∷ 0 ∷ []

different : (k k' : Kind) → discriminator k ≡ discriminator k' → k ≡ k'
different k k' h =
    let same : number k ≡ number k' = cc (h) in
    sym (kind_of_number-number k) ∙ ap kind_of_number same ∙ kind_of_number-number k'

abbrev wire : IsWire discriminator serialize AnyInstruction
wire = record { eight = λ k. refl; different = different; readable = readable }

-- An exact-out swap ignores the token ledger flag, so both sets of parameters give the same bytes.
abbrev asked : Bool → BuildSwapInstructionDataParams
asked ledger = record {
  use_shared_accounts = true;
  use_token_ledger = ledger;
  program_authority_id = 3;
  route_plan =
      (record { swap = raydium_cp; percent = 100; input_index = 0; output_index = 1 }) ∷ [];
  amount = 10_000;
  quoted_amount = 19_752;
  swap_mode = exact_out;
  slippage_bps = 50;
  platform_fee_bps = 0;
}

same_bytes :
    build_swap_instruction_data (data_of discriminator serialize) (asked true)
    ≡ build_swap_instruction_data (data_of discriminator serialize) (asked false)
unfolding build_swap_instruction_data data_of instruction
same_bytes = refl

build_swap_instruction_data-content_example :
    asked_content (asked true) ≡ asked_content (asked false)
build_swap_instruction_data-content_example =
    build_swap_instruction_data-content discriminator serialize AnyInstruction (asked true)
      (asked false) wire tt tt same_bytes
