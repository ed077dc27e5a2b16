-- ===== src/Handlers.antt =====
-- pyqgiswps/handlers: the handlers of requests, as far as they decide what is answered.
pub mod Download
pub mod Ows
pub mod Preferences
mod Tests
