-- ===== src/Order.antt =====
-- src/vbh_server/order/plugin: the order channel, its leader election and its block service.
pub mod Raft
pub mod Cps
