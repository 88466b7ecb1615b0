-- ===== src/Ip.antt =====
-- src/common/lib/ip.c and src/common/inc/ip.h: IPv4 subnets, the iterators over addresses and over
-- fragments of a subnet, and MAC addresses.
pub mod Order
pub mod Subnet
pub mod Fragment
pub mod AddrIter
pub mod Mac
mod Tests
