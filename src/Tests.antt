-- ===== src/Tests.antt =====
-- Runs of the model on small inputs, and the theorems applied to them.
mod World
mod Vault
mod Parts
mod Custom
mod Values
mod Validation
mod Secrets
mod Rejects
mod Session
mod Storage
mod Saving
mod Equality
