-- ===== src/Payments.antt =====
-- apps/payments: the receipts and the simulated gateway.
pub mod Rows
pub mod Services
pub mod Charging
pub mod Racing
