-- ===== src/Bsd.antt =====
-- source/mitm/bsd_shim.cpp: the parts of the bsd:u shim that compute without the console's services.
pub mod Proxy
pub mod Message
pub mod Lan
pub mod Sessions
pub mod Service
