-- ===== src/Reader.antt =====
-- src/bonobo_core/passwordsafe/reader.py: the authenticated reader.
pub mod Envelope
pub mod Builder
pub mod Fields
pub mod Open
pub mod Version
pub mod Validation
