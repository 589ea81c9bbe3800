-- ===== src/Credit.antt =====
-- pwa/services/credit.py: account credit, the codes that earn it, and the price of an order.
-- Credit is a ledger of signed entries, and a balance is a sum over it.
mod Examples
pub mod Ledger
pub mod Codes
pub mod Pricing
pub mod Spending
pub mod Rewards
