-- ===== src/Tests.antt =====
-- Runs at concrete inputs, of the program and of the theorems.
mod Nbf
mod Plans
mod Logs
mod Index
mod Memory
mod Pages
mod Pools
mod Locks
mod Accounts
mod Advice
