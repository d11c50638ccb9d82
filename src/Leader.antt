-- ===== src/Leader.antt =====
-- leader/leader.go: leader election by a config map that the leader's pod owns.
pub mod Program
pub mod Helpers
pub mod Options
pub mod Loop
pub mod Rounds
mod Waits
mod Doubling
mod Backoff
mod Unreadable
mod Unstarted
mod Start
mod Verdict
mod Judge
mod Inspect
mod Causes
mod Endings
mod Possible
mod Liveness
mod Cancellation
mod Deletion
pub mod Cluster
mod Tests
