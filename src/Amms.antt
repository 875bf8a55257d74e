-- ===== src/Amms.antt =====
-- jupiter-core/src/amms: the two AMMs behind jupiter_amm_interface, and how one is chosen.
pub mod Error
pub mod External
pub mod SegaAmm
pub mod SplTokenSwapAmm
pub mod Loader
pub mod Host
pub mod Clock
pub mod Interface
