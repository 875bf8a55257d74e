-- ===== src/BuildSwapTransaction/Wire.antt =====
-- The bytes of a Jupiter instruction (`data()` of anchor's InstructionData, for the structures of
-- jupiter_override in jupiter/src/lib.rs), and what of the parameters of
-- `build_swap_instruction_data` (jupiter-core/src/build_swap_transaction.rs) can be read off them.
-- The discriminators are generated and the serialization is derived: both are parameters.
use jupiter_amm_implementati.Base.{
  ℕ, ◌≡◌, refl, ap, sym, ◌∙◌, Bool, true, false, List, [], ◌∷◌, ◌++◌, length, arith,
}
use jupiter_amm_implementati.Chain.{Bytes, SwapMode, exact_in, exact_out}
use jupiter_amm_implementati.BuildSwapTransaction.InstructionData.{
  RoutePlanStep, JupiterInstruction, BuildSwapInstructionDataParams, instruction,
  build_swap_instruction_data,
}
use jupiter_amm_implementati.BuildSwapTransaction.InstructionData as InstructionData
use jupiter_amm_implementati.BuildSwapTransaction.Agreement.{Kind, kind_of_data}

-- What every one of the instructions says.
pub record Content : Type 0 where
  pub swap_mode : SwapMode
  pub use_shared_accounts : Bool
  pub route_plan : List RoutePlanStep
  pub quoted_amount : ℕ
  pub slippage_bps : ℕ
  pub platform_fee_bps : ℕ

abbrev pub content : JupiterInstruction → Content
content (InstructionData.route i) = record {
  swap_mode = exact_in;
  use_shared_accounts = false;
  route_plan = i.route_plan;
  quoted_amount = i.quoted_out_amount;
  slippage_bps = i.slippage_bps;
  platform_fee_bps = i.platform_fee_bps;
}
content (InstructionData.exact_out_route i) = record {
  swap_mode = exact_out;
  use_shared_accounts = false;
  route_plan = i.route_plan;
  quoted_amount = i.quoted_in_amount;
  slippage_bps = i.slippage_bps;
  platform_fee_bps = i.platform_fee_bps;
}
content (InstructionData.route_with_token_ledger i) = record {
  swap_mode = exact_in;
  use_shared_accounts = false;
  route_plan = i.route_plan;
  quoted_amount = i.quoted_out_amount;
  slippage_bps = i.slippage_bps;
  platform_fee_bps = i.platform_fee_bps;
}
content (InstructionData.shared_accounts_route i) = record {
  swap_mode = exact_in;
  use_shared_accounts = true;
  route_plan = i.route_plan;
  quoted_amount = i.quoted_out_amount;
  slippage_bps = i.slippage_bps;
  platform_fee_bps = i.platform_fee_bps;
}
content (InstructionData.shared_accounts_exact_out_route i) = record {
  swap_mode = exact_out;
  use_shared_accounts = true;
  route_plan = i.route_plan;
  quoted_amount = i.quoted_in_amount;
  slippage_bps = i.slippage_bps;
  platform_fee_bps = i.platform_fee_bps;
}
content (InstructionData.shared_accounts_route_with_token_ledger i) = record {
  swap_mode = exact_in;
  use_shared_accounts = true;
  route_plan = i.route_plan;
  quoted_amount = i.quoted_out_amount;
  slippage_bps = i.slippage_bps;
  platform_fee_bps = i.platform_fee_bps;
}

-- The same of the parameters.
abbrev pub asked_content : BuildSwapInstructionDataParams → Content
asked_content p = record {
  swap_mode = p.swap_mode;
  use_shared_accounts = p.use_shared_accounts;
  route_plan = p.route_plan;
  quoted_amount = p.quoted_amount;
  slippage_bps = p.slippage_bps;
  platform_fee_bps = p.platform_fee_bps;
}

content-instruction :
    (p : BuildSwapInstructionDataParams) → content (instruction p) ≡ asked_content p
unfolding instruction
content-instruction p = ground arith

same_length_prefix :
    (xs ys : Bytes) {us vs : Bytes}
    → length xs ≡ length ys
    → xs ++ us ≡ ys ++ vs
    → (xs ≡ ys) × (us ≡ vs)
same_length_prefix [] [] n h = (refl, h)
same_length_prefix [] (y ∷ ys) n h = absurd (omega (arith, n))
same_length_prefix (x ∷ xs) [] n h = absurd (omega (arith, n))
same_length_prefix (x ∷ xs) (y ∷ ys) {us} {vs} n h =
    let tails : xs ++ us ≡ ys ++ vs = cc (h) in
    let (front, back) = same_length_prefix xs ys (omega (arith, n)) tails in (cc (h, front), back)

module _ (discriminator : Kind → Bytes) (serialize : JupiterInstruction → Bytes) where
  -- `data`: the discriminator and the serialized fields.
  unfoldable pub data_of : JupiterInstruction → Bytes
  data_of i = discriminator (kind_of_data i) ++ serialize i

-- `InRange` stands for fields that are in the range of their types.
module _ (discriminator : Kind → Bytes) (serialize : JupiterInstruction → Bytes)
    (InRange : JupiterInstruction → Type 0) where
  -- Discriminators are eight bytes and different, and the fields can be read back.
  pub record IsWire : Type 0 where
    pub eight : (k : Kind) → length (discriminator k) ≡ 8
    pub different : (k k' : Kind) → discriminator k ≡ discriminator k' → k ≡ k'
    pub readable :
        (i j : JupiterInstruction)
        → InRange i
        → InRange j
        → kind_of_data i ≡ kind_of_data j
        → serialize i ≡ serialize j
        → i ≡ j

  data_of_injective :
      IsWire
      → (i j : JupiterInstruction) → InRange i
      → InRange j
      → data_of discriminator serialize i ≡ data_of discriminator serialize j
      → i ≡ j
  unfolding data_of
  data_of_injective wire i j fits fits' h =
      let k = kind_of_data i in
      let k' = kind_of_data j in
      let (front, back) =
        same_length_prefix (discriminator k) (discriminator k') (wire.eight k ∙ sym (wire.eight k'))
          h in
      wire.readable i j fits fits' (wire.different k k' front) back

  -- With discriminators of eight bytes that differ, and a serialization that can be read back within a
  -- kind of instruction from fields in their range, two sets of parameters in range that give the same bytes ask for the same mode, the same
  -- sharing of accounts, route plan, quoted amount, slippage and platform fee.
  pub build_swap_instruction_data-content :
      (p q : BuildSwapInstructionDataParams)
      → IsWire
      → InRange (instruction p)
      → InRange (instruction q)
      → build_swap_instruction_data (data_of discriminator serialize) p
        ≡ build_swap_instruction_data (data_of discriminator serialize) q
      → asked_content p ≡ asked_content q
  unfolding build_swap_instruction_data
  build_swap_instruction_data-content p q wire fits fits' h =
      let same = data_of_injective wire (instruction p) (instruction q) fits fits' (cc (h)) in
      sym (content-instruction p) ∙ ap content same ∙ content-instruction q
