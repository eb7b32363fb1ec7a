-- ===== src/Base/Bits.antt =====
-- Laws of the bit operations at variables: the digit recursion, fields and masks.
pub mod Step
pub mod Fields
pub mod Xor
pub mod Power
pub use Step.*
pub use Fields.*
pub use Xor.*
pub use Power.*
