-- ===== src/Prelude/Sort.antt =====
-- `xs.sort((a, b) => key(a) - key(b))`: a stable sort by a number.
mod Defs
pub mod Laws
pub mod Unique
unfoldable pub use Defs.*
