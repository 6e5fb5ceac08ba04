-- ===== src/Rule.antt =====
-- The rule editors' draft model (frontend/src/lib/rule-draft.ts).
pub mod Draft
pub mod Tree
pub mod Condition
pub mod Email
pub mod Action
pub mod Model
pub mod Loading
pub mod Request
pub mod Validation
pub mod Preview
pub mod Sending
pub mod Labels
mod Tests
