-- ===== src/Plugins.antt =====
-- mod/backend/domain/plugin: plugins, their published versions and the batches of Git's changes to them.
pub mod Model
pub mod Slots
pub mod Store
pub mod Step
pub mod Checks
pub mod Lookup
pub mod Lifecycle
pub mod Creation
pub mod Publishing
pub mod Publish
pub mod Kept
pub mod Invariant
pub mod PublishKept
pub mod RequestsKept
pub mod CreateKept
pub mod Lasting
pub mod Published
pub mod Denied
