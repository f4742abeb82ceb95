-- ===== src/Ehecs.antt =====
-- internal/tenants/ehecs: the tenant for the CSO Earnings, Hours and Employment Costs Survey.
pub mod Types
pub mod Ppsn
pub mod Schema
pub mod Logic
pub mod Codes
pub mod Lookups
mod Tests
