-- ===== src/Netlink.antt =====
-- src/sys/netlink.rs. The sockets and the requests are left out.
pub mod Address
pub mod Attributes
