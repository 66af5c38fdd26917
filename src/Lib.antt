-- ===== src/Lib.antt =====
-- A verification library for mips32, a MIPS32 assembler, disassembler and emulator in Go.
--
-- The program. Text is cut into lines and tokens (lexer.go, arg_token.go); a tokenized instruction
-- is matched against the templates (template.go) and becomes an `Instruction` (instruction.go), which
-- can be rendered again. Instructions are encoded as words and decoded from them (inst_coding.go).
-- An `Executable` (executable.go) maps addresses to segments of instructions and symbols to
-- addresses. An `Emulator` (emulator.go) runs an executable on a `Memory` (memory.go). The commands
-- are mips-as, mips-disas and mips-run; web/ is a user interface on the package.
--
-- The files.
--   Prelude     tests on the native numbers, lists and association lists with native indices,
--               signed integers.
--   Bits        `&`, `|` and `^` on numbers whose fields do not overlap.
--   Isa         Go's fixed-width integers with their wrap-around (Isa/Word), `Instruction`,
--               `CodePointer` and `MemoryReference` (Isa/Inst), errors and panics as values
--               (Isa/Failure).
--   Memory      memory.go: the interface `Memory` as a record of operations and one of laws
--               (Memory/Interface), and `LazyMemory`, which fills both (Memory/Lazy).
--   Coding      inst_coding.go: the opcode tables, `DecodeInstruction`, `Encode`,
--               `instructionBranchOffset` and `instructionJumpBase`. Coding/RoundTrip relates the
--               two directions, Coding/Landing says where branches and jumps lead, and
--               Coding/Families splits a statement on decoded instructions into their families.
--   Assembly    template.go, the accessors of `ArgToken` in arg_token.go, and
--               `ParseTokenizedInstruction` and `Render` of instruction.go; Assembly/Lines is the
--               choice of `ParseExecutable` (executable.go) for one line, Assembly/Reassembly
--               relates rendering to reading, for decoded words and for parsed
--               instructions (Assembly/Reassembly/Parsed), Assembly/Equal is `Equal` of lexer.go,
--               and Assembly/Reading is `TokenizeSource` of lexer.go and `ParseArgToken`, with their
--               regular expressions and the functions of `strings` written on characters.
--               Assembly/Printing is `String` of a line in lexer.go (Assembly/Printing/Text) with
--               the numerals of Go's `strconv` (Assembly/Printing/Numerals), and reads what is
--               printed again: numerals (ReadBack), arguments (Arguments, Memory, Again), operands,
--               instructions and lines.
--   Executable  executable.go: the `Executable` with `End`, `Get` and `addressInUse`
--               (Executable/Image), `ParseExecutable` (Executable/Parse and Executable/Join) and
--               `Render` (Executable/Render, Executable/Rendered, Executable/Rendering and, for what is
--               encoded again, Executable/Rewritten). What
--               a source means without segments, a flat list of addressed instructions and one of
--               labels, is in Executable/Source; Executable/Refines, Executable/Labels,
--               Executable/Verdict and Executable/Acceptance relate the two. Below them,
--               Executable/Effect and Executable/Fault are about one line, Executable/Append about
--               one instruction, Executable/Joining about joining segments, Executable/Holders and
--               Executable/Ranges about which segment holds an address, Executable/Contents about what
--               holds of all instructions,
--               Executable/Iteration about the order of the map, Executable/Top about `End`.
--   Commands    the loops of mips-as/main.go (Commands/Assemble) and of mips-disas/main.go
--               (Commands/Disassemble). Commands/Writing and Commands/Output are about what is
--               written; Commands/Bytes, Commands/Reading and Commands/RoundTrip take a file through
--               both, line by line, and Commands/Text with the text.
--               Commands/Dump is `dumpMemory` of mips-run/main.go.
--   Emulator    emulator.go: `Emulator` and its actions (Emulator/State), one file for each kind of
--               instruction (Emulator/Execute), `Done` and `Step` (Emulator/Step), the loop of
--               mips-run/main.go (Emulator/Run). Emulator/Safety, Emulator/Flow, Emulator/Words,
--               Emulator/Branching and Emulator/Ending are about them; Emulator/Safety/Source goes
--               from a source to the run, Emulator/Safety/Text from a text, Emulator/Safety/Words
--               from words that are decoded.
--   Formatting  `RegisterFile.String` and `eightDigitHex` of emulator.go, and web/src/utils.go.
--   Web         web/src: the view of the memory (Web/MemoryView, memory_view.go), the debugger
--               (Web/Debugger, debugger.go) with its loop as a step for each command and tick, the
--               assembler's and the disassembler's view (Web/Assembler, Web/Disassembler, Web/Page)
--               and the rows of the code view (Web/CodeView, code_view.go). What a handler shows is
--               a field of the state.
--   Examples    a small program and small sources, and the theorems at them.
--
-- How the code is read. A `uint32` is a natural number below 2 ^ 32, kept there by `% 2 ^ 32` where
-- Go wraps; an `int16` is its bit pattern, and `sext16` the conversion to `uint32` that extends its
-- sign. A register index is a natural number. A Go map is a list of pairs, in the order in which it
-- is iterated. Method calls on the emulator are actions, functions from an emulator to a result and
-- an emulator: the state that is left behind by an error is the state that the action returns. An
-- index out of range is the result `panic`. Errors are constructors with the values that the
-- messages show. The text of the messages is not modelled.
--
-- Bounds and fuel. All recursion is structural, on segments, templates, tables and arguments, except
-- in `run`, `write_from`, the loops of the memory view and those that print digits. The loop of
-- mips-as is given the fuel of one round for each word up to the end and one more, which is enough
-- for what `ParseExecutable` builds. A program need not end, so `run` has fuel, answers `none` when
-- it is used up, and what is stated of its state holds for every amount of fuel. Emulator/Ending
-- has an amount that is enough for programs without branches and jumps. A numeral has 64 digits at most, the length of the
-- buffer of `strconv`; padding is given a round for each character of the width. Eight rounds are
-- enough for each loop of `updateBase`.
--
-- Not modelled. The commands' flags, files and messages. Of web/, the elements of the page and the
-- calls of the browser, the popup that asks for a number, the lock and the channel of the debugger:
-- a handler is one step, and a command reaches the loop when it is sent. `updateUI` of the debugger
-- does not show the memory and the code here; their views are modelled on their own.
pub mod Prelude
pub mod Bits
pub mod Isa
pub mod Memory
pub mod Coding
pub mod Assembly
pub mod Executable
pub mod Emulator
pub mod Formatting
pub mod Web
pub mod Commands
mod Examples
