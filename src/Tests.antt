-- ===== src/Tests.antt =====
-- Runs of the model at concrete inputs, and the theorems applied to them.
mod Evm
mod Shuffler
mod Predicate
mod Expression
mod Opt
mod Layout
mod Symbols
mod Analysis
mod Typecheck
mod Storage
mod Emission
