-- ===== src/Bora.antt =====
-- The assistant, Bora: internal/service/bora_tools.go, what a language model may look up and propose,
-- and internal/service/bora.go, what it answers about, the turns that run and the streams that follow
-- them. The language model, the code search and the regular expressions are parameters.
pub mod Redact
pub mod Action
pub mod State
pub mod Lookup
pub mod Aid
pub mod Checks
pub mod Person
pub mod Fields
pub mod Propose
pub mod Diff
pub mod Code
pub mod Views
pub mod Tools
pub mod About
pub mod Rounds
pub mod Turns
pub mod Follow
