-- ===== src/Rules.antt =====
-- backend/rules: the evaluation of rules on an event, the loader and the store.
mod Precedence
mod Engine
mod Loader
pub mod FirstMatch
pub mod Totality
pub mod Independence
pub mod Loading
pub mod Reloading
unfoldable pub use Precedence.*
unfoldable pub use Engine.*
unfoldable pub use Loader.*
