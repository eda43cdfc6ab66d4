-- ===== src/Api.antt =====
-- seekserve-serve/src/control_api_server.cpp and control_api_server.hpp: `ControlApiServer`, from the
-- parsed request to the answer, and its life cycle.
pub mod State
pub mod Paths
pub mod Torrent
pub mod Handler
pub mod Errors
pub mod Effects
pub mod Uncaught
pub mod Server
mod Tests
