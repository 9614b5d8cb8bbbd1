-- ===== src/Billing.antt =====
-- The billing core (services/billing, db/models/billing.py and the two billing routers).
pub mod Models
pub mod Pricing
pub mod Status
pub mod Ledger
pub mod Promo
pub mod Invariant
pub mod Charger
pub mod Api
mod Tests
