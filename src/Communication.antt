-- ===== src/Communication.antt =====
-- `UrCommunication` of src/ur_communication.cpp: the state, the thread, and what they keep.
pub mod Defs
pub mod Thread
pub mod Safety
pub mod Handshake
