-- ===== src/Base/Sort.antt =====
-- Python's `sorted` and `list.sort` as a stable insertion sort, over any order given as a test.
mod Defs
mod Laws
unfoldable pub use Defs.*
pub use Laws.*
