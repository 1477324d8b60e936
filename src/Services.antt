-- ===== src/Services.antt =====
-- backend/services: the budgets, and the workers that take tweets in and that run the rules.
pub mod Worker
pub mod Budget
pub mod Ingestion
pub mod RulePipeline
pub mod Positions
pub mod Aliases
pub mod LlmPipeline
pub mod WatchedAccounts
