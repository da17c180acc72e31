-- ===== src/Storage.antt =====
-- src/bonobo_core/passwordsafe/storage.py: the local publication of encrypted candidates, with the
-- recovery artifacts that it keeps, over a model of the POSIX file system.
pub mod Evidence
pub mod Slots
pub mod Action
pub mod Files
pub mod Recovery
pub mod Transaction
pub mod Publish
pub mod Operations
