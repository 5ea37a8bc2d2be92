-- ===== src/Client/Instances.antt =====
-- The transactions of sdk/transaction_model.go meet its interface `Transaction`.
pub mod Accounts
pub mod Assets
