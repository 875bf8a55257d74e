-- ===== src/Tests.antt =====
-- Runs of the development on concrete pools, and the theorems applied to them.
mod World
pub mod Curve
pub mod Session
pub mod Stale
pub mod Liquidity
pub mod Host
pub mod Harness
pub mod Instruction
pub mod Simulation
pub mod Owners
pub mod Wire
pub mod Sega
pub mod Quotes
pub mod Spl
pub mod Other
pub mod Jupiter
