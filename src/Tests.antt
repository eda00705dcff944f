-- ===== src/Tests.antt =====
-- Runs of the theorems on concrete inputs.
mod Outside
mod Names
mod Network
mod Authority
mod Renewal
mod Files
mod Commands
mod Periods
mod Due
mod Accounts
mod Groups
mod Options
mod Reading
mod Loop
