-- ===== src/StateManager.antt =====
-- packages/statemanager/src: what the caches share.
pub mod Cache
pub mod Simple
