-- ===== src/Memory.antt =====
-- memory.go: the `Memory` interface and its lazy implementation.
pub mod Interface
pub mod Lazy
