-- ===== src/State.antt =====
-- python/ai_how/src/ai_how/state: the state of a cluster as a JSON document, in a file, and behind a
-- manager that caches it.
pub mod Json
pub mod Codec
pub mod Persistence
pub mod Atomic
pub mod Manager
mod Tests
