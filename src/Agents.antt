-- ===== src/Agents.antt =====
-- The agents of app/agents/.
pub mod Query
pub mod Native
pub mod Workspace
mod Asked
mod ReadOnly
mod Tests
