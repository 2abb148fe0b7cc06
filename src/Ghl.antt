-- ===== src/Ghl.antt =====
-- The GoHighLevel webhooks that change a Lead: appointments, opportunities, inbound replies and
-- opt-outs, a file for each.
pub mod Lookup
pub mod Appointment
pub mod Opportunity
pub mod Reply
pub mod OptOut
