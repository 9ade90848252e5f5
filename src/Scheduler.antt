-- ===== src/Scheduler.antt =====
-- The schedulers of agentos-kernel/src/scheduler: the table of agent processes, and the choice of
-- the next task that the two ring-3 schedulers share.
pub mod Process
pub mod Agent
pub mod Tier
pub mod RawMemory
pub mod Multitask
pub mod Preempt
pub mod Intercept
