-- ===== src/Tests.antt =====
-- Concrete requests and databases, on which the theorems are applied.
mod Data
mod Leads
mod Books
mod Imports
mod Money
mod Servicing
mod Webhooks
mod Activations
mod Portal
mod Signins
