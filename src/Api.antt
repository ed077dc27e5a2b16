-- ===== src/Api.antt =====
-- The jobs of the OGC API: ogc/api/request.py, handlers/processeshandler.py,
-- handlers/statushandler.py and handlers/storehandler.py.
pub mod Schema
pub mod Inputs
pub mod Jobs
pub mod Visible
pub mod Dismiss
pub mod Store
pub mod Execute
mod Documents
mod Tests
