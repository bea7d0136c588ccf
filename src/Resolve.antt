-- ===== src/Resolve.antt =====
-- src/resolve.c: name resolution.
pub mod Table
pub mod Scopes
pub mod Walk
pub mod Collect
pub mod Labels
pub mod Program
pub mod Visits
pub mod Slots
pub mod Invariant
pub mod Keeps
pub mod Passes
pub mod Statements
pub mod Symbols
pub mod Numbered
pub mod Apart
pub mod Stray
pub mod Leaves
pub mod Found
pub mod Fallbacks
pub mod Linked
pub mod Chain
pub mod Ends
pub mod Jumps
pub mod Binds
pub mod Gotos
pub mod Targets
pub mod Queries
