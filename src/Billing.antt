-- ===== src/Billing.antt =====
-- app/services/billing.py, by part; `History` runs the parts together.
pub mod Plans
pub mod Tiers
pub mod Grants
pub mod Payments
pub mod Reconcile
pub mod History
mod Tests
