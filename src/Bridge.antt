-- ===== src/Bridge.antt =====
-- pyqgiswps/executors/processingio.py and io: the parameters of a QGIS algorithm as inputs of a
-- process, and the values of a request as values of the parameters.
pub mod Params
pub mod Literals
pub mod Layers
pub mod Files
pub mod Definitions
pub mod Values
mod Tests
