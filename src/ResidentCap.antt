-- ===== src/ResidentCap.antt =====
-- c_lord/resident_cap.py: the cap on resident workspaces and the emergency brake. What tmux, the
-- database, Discord and the memory readings answer during one pass are arguments; what the pass does
-- to workspaces is a list of actions. A set is a list without repetitions.
pub mod Memory
pub mod Select
pub mod Sleep
pub mod Cap
pub mod Brake
mod Examples
