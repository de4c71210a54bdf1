-- ===== src/Bootstrap.antt =====
-- internal/bootstrap: what a bootstrap of a remote host installs, and the plan for it. Names and
-- Entries have the components, Catalog the lookups of them, Resolve the choice of them, Inventory
-- what is known of the host, Steps the commands, Plan the plan, and Script
-- its shell script.
mod Tests
pub mod Names
pub mod Entries
pub mod Catalog
pub mod Resolve
pub mod Inventory
pub mod Steps
pub mod Plan
pub mod Log
pub mod Script
