-- ===== src/Executable.antt =====
-- executable.go: segments of instructions and a symbol table.
pub mod Image
pub mod Lookup
pub mod Parse
pub mod Join
pub mod Iteration
pub mod Render
pub mod Holders
pub mod Ranges
pub mod Joining
pub mod Append
pub mod Top
pub mod Source
pub mod Splitting
pub mod Effect
pub mod Contents
pub mod Fault
pub mod Refines
pub mod Labels
pub mod Verdict
pub mod Acceptance
pub mod Rendered
pub mod Rendering
pub mod Rewritten
