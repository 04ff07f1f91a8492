-- ===== src/Tests.antt =====
-- The theorems at concrete inputs.
mod Launch
mod Channel
mod Children
mod Network
mod Filter
mod Life
mod Configuration
mod Files
mod Groups
mod Rules
