-- ===== src/Tests.antt =====
-- Runs of the models on small inputs, and instances of the theorems at inputs that meet their
-- conditions.
mod Numbers
mod Ranges
mod Types
mod Enums
mod Lexing
mod Names
mod Modules
mod Identities
mod Paths
mod Entries
mod Resolving
