-- ===== src/CpSwap.antt =====
-- The crate sega-cp-swap: the arithmetic and the account layout of a constant product pool.
pub mod Seeds
pub mod Fees
pub mod CeilDiv
pub mod ConstantProduct
pub mod Calculator
pub mod AmmConfig
pub mod Pool
pub mod Session
pub mod Swap
