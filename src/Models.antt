-- ===== src/Models.antt =====
-- The domain models (pkg/models, and the events of pkg/events that the services exchange).
--
-- A Go string type with constants (a status, a category, a wait mode) stays a text, so that each
-- `switch` keeps its default. A time is a number of nanoseconds, and 0 is the zero time. A nil map
-- is the empty map: the code reads both alike, and writes only to maps that it has made. Fields
-- for display alone (a node's position, a port's description and schema) are left out.
pub mod Value
pub mod Number
pub mod Port
pub mod Workflow
pub mod Execution
pub mod Event
pub mod Source
pub mod Database
