-- ===== src/Tools.antt =====
-- internal/tools: the tools of polls.
pub mod Polls
pub mod Voting
pub mod Examples
