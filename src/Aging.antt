-- ===== src/Aging.antt =====
-- The aging sweep, `runLeadAgingSweep` (src/lib/lead-aging-jobs.ts): claims whose 45 days are over
-- go back to the Open Pool, and Open Pool Leads that nobody took for 21 days go to the Shark Tank.
-- Times before the 22nd day of 1970 are out of the model: there `daysAgo` stops at 0.
pub mod Sweep
