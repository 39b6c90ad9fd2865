-- ===== src/Gateway.antt =====
-- The Gateway's axis calibration and its frames: Firmware/Libraries/SimGateway/AxisCal.cpp and the inbound
-- parser of SimGateway.cpp.
pub mod AxisCal
pub mod CalType
pub mod Frame
pub mod Inbound
pub mod Uplink
pub mod AxisLaws
pub mod Owner
pub mod Lossless
pub mod FrameTrip
pub mod LineTrip
pub mod HidTrip
mod Examples
