-- ===== src/Tests.antt =====
-- Runs of the definitions on small inputs, and the theorems at inputs where their hypotheses hold.
mod Keys
mod Views
mod Transfers
mod Bonds
mod Transactions
mod Balances
mod Fees
mod Windows
mod IdLists
mod Mempools
mod Indexes
mod Processing
