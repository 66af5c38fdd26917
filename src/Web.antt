-- ===== src/Web.antt =====
-- The debugger's page, web/src: its state and what its handlers do to it. What a handler shows is
-- a value of the model; the elements of the page are not.
pub mod MemoryView
pub mod Debugger
pub mod Assembler
pub mod Disassembler
pub mod Page
pub mod CodeView
