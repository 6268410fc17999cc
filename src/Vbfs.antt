-- ===== src/Vbfs.antt =====
-- vbh_const_length_storage/vbfs: the virtual block file system below the tables.
pub mod Device
pub mod Entries
pub mod Raw
pub mod File
pub mod Volumes
pub mod PageTable
pub mod Store
