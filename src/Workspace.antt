-- ===== src/Workspace.antt =====
-- The agents' workspace, src/lib/lead-workspace.ts: the rules that a disposition follows, and the
-- four handlers, a file for each.
pub mod Rules
pub mod ColdCall
pub mod ColdDisposition
pub mod Interaction
pub mod Dnc
pub mod Eligible
