-- ===== src/Tests/Spl.antt =====
-- Runs of the AMM of the token swap programs.
use jupiter_amm_implementati.Base.{
  panic, ◌^◌, ◌-◌, ◌==◌, if◌then◌else◌, ℕ, ◌≡◌, ◌↔◌, refl, true, false, none, some, [], ◌∷◌, ok,
  debug,
}
use jupiter_amm_implementati.Chain
use jupiter_amm_implementati.Chain.{
  Bytes, SwapMode, exact_in, exact_out, raydium_cp, token_swap, QuoteParams,
}
use jupiter_amm_implementati.Amms.SplTokenSwapAmm.{SplTokenSwapAmm, get_amount, update, orca_v2}
use jupiter_amm_implementati.Amms.SplTokenSwapAmm.Curve.{
  TokenSwapFees, TradeDirection, a_to_b, b_to_a, CurveResult, SwapState, TokenSwapLib,
}
use jupiter_amm_implementati.Amms.SplTokenSwapAmm.Curve as Curve
use jupiter_amm_implementati.Amms.SplTokenSwapAmm.Quote.{quote, trade_sides}
use jupiter_amm_implementati.Amms.SplTokenSwapAmm.Quote.Reserves.{update-quote_sides}
use jupiter_amm_implementati.Amms.SplTokenSwapAmm.Quote.Panics.{Overflows, quote_panic_iff}
use jupiter_amm_implementati.Tests.World.{ext, accounts, asked}

abbrev fees : TokenSwapFees
fees = record {
  trade_fee_numerator = 25;
  trade_fee_denominator = 10_000;
  owner_trade_fee_numerator = 5;
  owner_trade_fee_denominator = 10_000;
}

-- A curve that pays one for one, whatever the reserves.
abbrev pub lib : TokenSwapLib
lib = record {
  CurveType = Unit {0};
  Calculator = Unit {0};
  clone_calculator = λ c. c;
  clone_fees = λ f. f;
  unpack_swap = λ bytes. none;
  unpack_token_account =
      λ bytes. elim bytes [ [] ↦ none | b ∷ bs ↦ some (record { is_frozen = false; amount = b }) ];
  swap = λ curve amount source destination direction fees. some (record {
    source_amount_swapped = amount;
    destination_amount_swapped = amount;
    trade_fee = 25;
    owner_fee = 5;
  });
  key_bytes = λ key. key ∷ [];
  token_program_id = 7;
}

abbrev pub spl : SplTokenSwapAmm ext lib
spl = record {
  key = 20;
  label = "Orca v2";
  state = record {
    token_a = 3;
    token_b = 4;
    pool_mint = 21;
    token_a_mint = 5;
    token_b_mint = 6;
    pool_fee_account = 22;
    fees = fees;
    swap_curve = record { curve_type = tt; calculator = tt };
    is_initialized = true;
    bump_seed = 255;
    token_program_id = 7;
  };
  reserve_mints = (5, 6);
  reserves = (0, 0);
  program_id = orca_v2;
}

amount_a : get_amount ext lib accounts 3 ≡ ok 1_000_040
unfolding get_amount
amount_a = refl

amount_b : get_amount ext lib accounts 4 ≡ ok 2_000_060
unfolding get_amount
amount_b = refl

abbrev quoted : Chain.Quote ℕ
quoted = record {
  in_amount = 10_000;
  out_amount = 10_000;
  fee_amount = 30;
  fee_mint = 6;
  fee_pct = 0;
}

quote_b : quote ext lib debug (update ext lib accounts spl).1 (asked 6 10_000) ≡ ok quoted
unfolding quote update get_amount trade_sides Curve.get_swap_curve_result Curve.fee_pct Curve.new
quote_b = refl

update-quote_sides_example :
    (c : CurveResult) × (lib.swap spl.state.swap_curve 10_000
        (if 6 == spl.reserve_mints.0 then 1_000_040 else 2_000_060)
        (if 6 == spl.reserve_mints.0 then 2_000_060 else 1_000_040)
        (if 6 == spl.reserve_mints.0 then a_to_b else b_to_a)
        fees
      ≡ some c)
    × (10_000 ≡ c.source_amount_swapped)
    × (10_000 ≡ c.destination_amount_swapped)
update-quote_sides_example =
    update-quote_sides ext lib debug accounts spl (asked 6 10_000) {q = quoted} amount_a amount_b
      quote_b

-- A curve whose two fees do not fit 128 bits together.
abbrev greedy : TokenSwapLib
greedy = record lib {
  swap = λ curve amount source destination direction fees. some (record {
    source_amount_swapped = amount;
    destination_amount_swapped = amount;
    trade_fee = 2 ^ 128 - 1;
    owner_fee = 1;
  });
}

abbrev greedy_spl : SplTokenSwapAmm ext greedy
greedy_spl = record {
  key = 20;
  label = "Orca v2";
  state = spl.state;
  reserve_mints = (5, 6);
  reserves = (0, 0);
  program_id = orca_v2;
}

quote_panic_iff_example :
    (quote ext greedy debug greedy_spl (asked 6 10_000) ≡ panic)
    ↔ Overflows ext greedy debug spl.state.swap_curve 10_000
        (trade_sides ext greedy greedy_spl 6).1
        (trade_sides ext greedy greedy_spl 6).2
        (trade_sides ext greedy greedy_spl 6).0
        fees
quote_panic_iff_example = quote_panic_iff ext greedy debug greedy_spl (asked 6 10_000)
