-- ===== src/Tests/Harness.antt =====
-- The clients of the trait `Amm` on the concrete AMMs.
use jupiter_amm_implementati.Base.{
  ℕ, ◌≤◌, ◌≡◌, ◌≢◌, ◌↔◌, refl, true, false, some, List, [], ◌∷◌, ok, panic, if◌then◌else◌, debug,
  arith,
}
use jupiter_amm_implementati.Chain.{Pubkey}
use jupiter_amm_implementati.Amms.SegaAmm.{
  SegaAmm, from_keyed_account, get_accounts_to_update, get_reserve_mints, get_authority, sega,
}
use jupiter_amm_implementati.Amms.SegaAmm.Update.{update, get_mint, get_unfrozen_token_amount}
use jupiter_amm_implementati.Amms.SegaAmm.Update.Precise.{contains, update_amm_precise}
use jupiter_amm_implementati.Amms.SegaAmm.Metas as Metas
use jupiter_amm_implementati.CpSwap.Swap.{to_account_metas}
use jupiter_amm_implementati.Amms.Loader.{AnyAmm, sega_amm, amm_factory, sega_swap_programs}
use jupiter_amm_implementati.Amms.SplTokenSwapAmm.{spl_token_swap_programs}
use jupiter_amm_implementati.Amms.SplTokenSwapAmm.Curve as Curve
use jupiter_amm_implementati.Amms.SplTokenSwapAmm.Quote as SplQuote
use jupiter_amm_implementati.Amms.Interface.{Amm, IsAmm}
use jupiter_amm_implementati.Amms.Interface.Impls.{
  for_sega_amm, for_spl_token_swap_amm, for_any_amm,
}
use jupiter_amm_implementati.Amms.Interface.Laws.{HasClones, for_any_amm-IsAmm}
use jupiter_amm_implementati.Amms.Interface.Clients.{
  Made, created, updated, cloned, token_mints_permutations, Made-routed,
}
use jupiter_amm_implementati.Amms.Interface.QuoteSearch.{
  Found, find_quote, IsFirst, find_quote-IsFirst,
}
use jupiter_amm_implementati.Amms.Interface.Snapshot.{saved, NoneExecutable, addresses_for_snapshot}
use jupiter_amm_implementati.Amms.Interface.Snapshot.Members.{
  IsSaved, addresses_for_snapshot-IsSaved_iff,
}
use jupiter_amm_implementati.Amms.Interface.Replay.{
  update_amm, update_times, load, take_snapshot, IsStable, load-take_snapshot,
}
use jupiter_amm_implementati.Route.{get_token_mints_permutations, get_two_permutations}
use jupiter_amm_implementati.Tests.World.{ext, keyed, accounts, set_up, amm, clock, asked}
use jupiter_amm_implementati.Tests.Spl.{lib, spl}
use jupiter_amm_implementati.Tests.Jupiter.{
  permutations, collect_tuple, permutations-ArePermutations, collects,
}

abbrev clones : HasClones ext lib
clones = record { fees = λ fees. refl; calculator = λ calculator. refl }

for_any_amm-IsAmm_example : IsAmm ext (for_any_amm ext false lib)
for_any_amm-IsAmm_example = for_any_amm-IsAmm ext lib false clones

abbrev any : Amm ext
any = for_any_amm ext false lib

abbrev boxed : SegaAmm ext → AnyAmm ext lib
boxed self = sega_amm self

-- Set up by the factory, updated, and cloned.
made : Made ext any keyed (boxed amm)
unfolding amm_factory spl_token_swap_programs sega_swap_programs from_keyed_account update get_mint
    get_unfrozen_token_amount
made =
    cloned (boxed amm) (boxed amm)
      (updated (boxed set_up) (boxed amm) accounts (created (boxed set_up) refl) refl) refl

Made-routed_example :
    (any.key (boxed amm) ≡ keyed.key)
    × (any.program_id (boxed amm) ≡ sega)
    × ((a : Pubkey) × (b : Pubkey) × (any.get_reserve_mints (boxed amm) ≡ a ∷ b ∷ [])
        × (token_mints_permutations ext any permutations collect_tuple (boxed amm)
            ≡ ok (if false then (a, b) ∷ [] else (a, b) ∷ (b, a) ∷ [])))
Made-routed_example =
    Made-routed ext any for_any_amm-IsAmm_example keyed permutations collect_tuple
      permutations-ArePermutations collects made

abbrev one_way : Amm ext
one_way = for_spl_token_swap_amm ext true lib

never_panics : (a : ℕ) → a ≤ 10_000 → one_way.quote debug clock spl (asked 6 a) ≢ panic
unfolding SplQuote.quote SplQuote.trade_sides Curve.get_swap_curve_result Curve.fee_pct Curve.new
never_panics a below h = ground arith

find_quote-IsFirst_example :
    (found : Found ℕ) × (find_quote ext one_way debug clock (asked 6) spl 10_000 ≡ ok found)
    × IsFirst ext one_way debug clock (asked 6) spl 10_000 10 found
find_quote-IsFirst_example =
    find_quote-IsFirst ext one_way debug clock (asked 6) spl 10_000 never_panics

abbrev sega_ops : Amm ext
sega_ops = for_sega_amm ext false

abbrev keys : List Pubkey
keys = 1 ∷ 3 ∷ 4 ∷ 2 ∷ 5 ∷ 6 ∷ []

abbrev addresses : List Pubkey
addresses =
    98 ∷ sega ∷ 99 ∷ 2 ∷ 1 ∷ 3 ∷ 4 ∷ 7 ∷ 7 ∷ 5 ∷ 6 ∷ 8 ∷ sega ∷ 99 ∷ 2 ∷ 1 ∷ 4 ∷ 3 ∷ 7 ∷ 7 ∷ 6 ∷ 5
    ∷ 8 ∷ 1 ∷ 3 ∷ 4 ∷ 2 ∷ 5 ∷ 6 ∷ 5 ∷ 6 ∷ []

snapshot_ok :
    take_snapshot ext sega_ops permutations collect_tuple (λ _. some 1_000) 97 98 accounts keyed
    ≡ ok (amm, addresses)
unfolding take_snapshot load update_times update_amm update_amm_precise from_keyed_account update
    get_mint get_unfrozen_token_amount addresses_for_snapshot get_accounts_to_update
    get_reserve_mints token_mints_permutations get_token_mints_permutations get_two_permutations
    Metas.get_swap_and_account_metas get_authority to_account_metas
snapshot_ok = refl

none_executable : NoneExecutable ext accounts keys
none_executable key h = ground arith

stable : IsStable ext sega_ops accounts keys
unfolding get_accounts_to_update update get_mint get_unfrozen_token_amount
stable self h = let own : self.key ≡ 1 = cc (h) in rw own refl

asks :
    (self : SegaAmm ext)
    → from_keyed_account ext keyed ≡ ok self
    → get_accounts_to_update ext self ≡ keys
unfolding from_keyed_account get_accounts_to_update
asks self h = let same : self ≡ set_up = cc (h) in rw same refl

load-take_snapshot_example : load ext sega_ops (saved ext accounts addresses) keyed ≡ ok amm
load-take_snapshot_example =
    load-take_snapshot ext sega_ops permutations collect_tuple (λ _. some 1_000) 97 98 accounts keys
      stable keyed asks refl none_executable snapshot_ok

pairs_found :
    token_mints_permutations ext sega_ops permutations collect_tuple amm ≡ ok ((5, 6) ∷ (6, 5) ∷ [])
unfolding token_mints_permutations get_token_mints_permutations get_two_permutations
    get_reserve_mints
pairs_found = refl

addresses_found :
    addresses_for_snapshot ext sega_ops permutations collect_tuple (λ _. some 1_000) 97 98 amm
    ≡ ok addresses
unfolding addresses_for_snapshot get_accounts_to_update get_reserve_mints token_mints_permutations
    get_token_mints_permutations get_two_permutations Metas.get_swap_and_account_metas get_authority
    to_account_metas
addresses_found = refl

addresses_for_snapshot-IsSaved_iff_example :
    (contains 98 addresses ≡ true)
    ↔ IsSaved ext sega_ops (λ _. some 1_000) 97 98 amm ((5, 6) ∷ (6, 5) ∷ []) 98
addresses_for_snapshot-IsSaved_iff_example =
    addresses_for_snapshot-IsSaved_iff ext sega_ops (λ _. some 1_000) 97 98 amm permutations
      collect_tuple 98 pairs_found addresses_found
