-- ===== src/Lib.antt =====
-- The Sega constant product pool and its integration with Jupiter.
--
-- The repository has three crates. sega-cp-swap computes what a pool pays: fees, the curve
-- x * y = constant, and the accounts of a swap. jupiter-core adapts pools to Jupiter's `Amm` trait:
-- a loader chooses the AMM by the owner of an account, the host feeds it accounts by `update`, asks
-- it for a `quote`, and takes the accounts of a swap from `get_swap_and_account_metas`. jupiter and
-- jupiter-core's build_swap_transaction put a swap into an instruction of the Jupiter program.
--
-- Base has the shared notions. An `Outcome` is a value, an error that `?` passes on, or a panic; a
-- Rust `Option<A>` function that may panic is a `Partial A`. Numbers are naturals, and every
-- checked operation tests the bound of its type (Base/Words). A plain `+` panics in a debug build
-- and wraps in a release build, so code that uses one takes a `Profile`. A `&mut self` method is a
-- `Method`, which keeps what was written before an error. Chain has the data of the crates solana_sdk
-- and jupiter_amm_interface that the code builds and reads; a public key is a number.
--
-- Files and the code that they model:
--   CpSwap/Fees                sega-cp-swap/src/fees.rs (Fees::trading_fee and the others)
--   CpSwap/CeilDiv             sega-cp-swap/src/math.rs (checked_ceil_div)
--   CpSwap/ConstantProduct     sega-cp-swap/src/constant_product.rs
--   CpSwap/Calculator          sega-cp-swap/src/calculator.rs (swap_base_input, swap_base_output)
--   CpSwap/Session             several swaps of calculator.rs in a row on one pool, an amount that is
--                              swapped in parts, and deposits and withdrawals at the price of its
--                              lp_tokens_to_trading_tokens
--   CpSwap/Seeds               sega-cp-swap/src/lib.rs and the constants of pool.rs
--   CpSwap/Pool, AmmConfig     sega-cp-swap/src/pool.rs and amm_config.rs
--   CpSwap/Swap                sega-cp-swap/src/swap.rs (the account list of a swap)
--   Amms/SegaAmm               jupiter-core/src/amms/sega_amm.rs: the state and its set-up, with
--                              Update for `update`, Quote for `quote`, Metas for the swap
--                              accounts; Update/Precise is update_amm_precise of
--                              jupiter-core/src/amms/test_harness.rs
--   Amms/SplTokenSwapAmm       jupiter-core/src/amms/spl_token_swap_amm.rs in the same parts, with
--                              jupiter-core/src/math and amms/account_meta_from_token_swap.rs
--   Amms/Loader                jupiter-core/src/amms/loader.rs
--   Amms/Clock                 `quote` of sega_amm.rs as a thread whose two relaxed loads of the clock
--                              each return a value that its atomic has held, in no common order
--   Amms/Host                  lemmas on the loader, update and quote in a row
--   Amms/Interface             the trait `Amm` as a record of operations (Impls has its two
--                              implementations and the box), its laws, and its clients: Clients with
--                              route.rs; QuoteSearch, Snapshot, Replay,
--                              MintTables and SwapInstruction (with Simulation) with parts of
--                              jupiter-core/src/amms/test_harness.rs. A HashSet of addresses is
--                              a list; the bank that simulates a swap is a parameter
--                              (BanksClient)
--   BuildSwapTransaction       jupiter-core/src/build_swap_transaction.rs and the structures of
--                              jupiter_override in jupiter/src/lib.rs
--   Jupiter                    the authorities and token ledgers of jupiter/src/lib.rs, and its
--                              unit test in UnitTests
--   Route                      jupiter-core/src/route.rs
--   Main, Constants            jupiter-core/src/main.rs, constants.rs and config.rs
--   Tests                      runs on a concrete pool
-- Below each of these, the files with other names hold the lemmas and theorems about it.
--
-- The calls into other crates are parameters: `External` (Amms/External) has the account formats,
-- the mints with their transfer fees, the derived addresses and rust_decimal; `TokenSwapLib`
-- (Amms/SplTokenSwapAmm/Curve) has the curve of spl_token_swap; the bytes and the account order that
-- anchor generates, the draws of rand and the permutations of itertools are functions that the
-- definitions take. A call of `quote` takes the shared clock as a `ClockRef`, its two atomics
-- at one moment; Amms/Clock is about loads that return parts of two moments. The program that holds the
-- pool's tokens is not in the repository: the deposits and withdrawals of CpSwap/Session move what
-- lp_tokens_to_trading_tokens says. The loops are over lists, ranges and a count of tries, by
-- structural recursion, so there is no fuel.
--
-- Not modelled: what the test harness does with files and a node, and how it sets up a simulated
-- validator; the parsing of the command line; the generated integer types U128 and U256 of math.rs, which no code
-- uses. The observation accounts of pool.rs, which no code reads, are records with their sizes only.
pub mod Base
pub mod Chain
pub mod Constants
pub mod CpSwap
pub mod Amms
pub mod BuildSwapTransaction
pub mod Tests
pub mod Jupiter
pub mod Main
pub mod Route
