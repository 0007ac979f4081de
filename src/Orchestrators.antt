-- ===== src/Orchestrators.antt =====
-- The orchestrators of packages/runtime/src: send-orchestrator.ts and receive-orchestrator.ts.
pub mod World
pub mod Sends
pub mod Tasks
pub mod TaskStores
pub mod TaskMaps
pub mod TaskRefinement
pub mod Receives
pub mod Ticks
pub mod Hoare
pub mod Ledger
pub mod Publishing
pub mod Polling
pub mod OneBlock
pub mod Receiving
pub mod OneReceive
pub mod Attempts
pub mod Failing
pub mod Refusals
pub mod Outcomes
pub mod Published
pub mod Confirming
pub mod Confirmed
pub mod Timely
mod Tests
