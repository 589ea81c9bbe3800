-- ===== src/Admin.antt =====
-- pwa/api/admin_grant.py and pwa/api/admin_promo.py: access without a payment, and campaign codes.
pub mod Grants
pub mod Promo
