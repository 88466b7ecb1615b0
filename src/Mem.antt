-- ===== src/Mem.antt =====
-- src/common/lib/mem.c and src/common/inc/mem.h: arithmetic that aborts on overflow, allocation that aborts
-- when memory runs out, and the flexible buffers.
pub mod Checked
pub mod Flex
mod Tests
