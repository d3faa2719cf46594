-- ===== src/Tests.antt =====
-- Runs on small inputs: a kernel that is a function, and the theorems applied to it.
pub mod Net
mod WorkerRuns
mod ConnectionRuns
mod ManagerRuns
mod ServerRuns
pub mod Counter
mod SelectRuns
mod BlockingRuns
mod EpollRuns
mod FlagRuns
mod ClientRuns
mod LogRuns
mod LoopRuns
mod MainRuns
