-- ===== src/Alerts.antt =====
-- Alerts on usage, on balances and by rules: Usage is apps/api/src/services/vk-usage-alert.service.ts,
-- Balance is balance-tracker.service.ts and provider-balance-check.service.ts, Rules is
-- alert-rule.service.ts and budget.service.ts in the same folder.
pub mod Usage
pub mod Balance
pub mod Budget
pub mod Rules
