-- ===== src/Execution.antt =====
-- backend/execution: the context that the risk manager judges by, and the executor, the only path
-- to the broker.
mod Context
mod Executor
mod Fills
pub mod Gates
pub mod Outcome
pub mod Recording
pub mod Attempt
pub mod Idempotency
unfoldable pub use Context.*
unfoldable pub use Executor.*
unfoldable pub use Fills.*
