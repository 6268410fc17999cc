-- ===== src/Storage.antt =====
-- The constant-length storage: src/vbh_server/vbh_server_comm/vbh_const_length_storage.
pub mod PageStore
pub mod Cache
pub mod Record
pub mod MultiUpdate
pub mod Update
pub mod Append
