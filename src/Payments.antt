-- ===== src/Payments.antt =====
-- internal/payments: the invoice lifecycle and its persistence.
pub mod State
pub mod Store
pub mod Tests
