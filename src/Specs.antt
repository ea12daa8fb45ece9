-- ===== src/Specs.antt =====
-- app/orchestration/operation_specs.py: the catalog of operations and the check of their arguments.
mod Catalog
pub mod Values
pub mod Validate
pub mod Modes
pub mod Accepted
pub mod Marker
mod Tests
pub use Catalog.{
  OperationSpec, gmail_operations, google_calendar_operations, google_drive_operations,
  workspace_operations, operation_specifications,
}
