-- ===== src/Words.antt =====
-- Machine words as native numbers: the operators of Rust's unsigned integers, and their laws.
pub mod Bits
pub mod Powers
pub mod Masks
pub mod Ops
