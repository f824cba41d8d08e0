-- ===== src/Lib.antt =====
-- AMED decodes the machine code of x86, AArch32 and AArch64. A decoder takes the bytes at an
-- address and fills an instruction: its mnemonic, its arguments, its attributes, and for x86 the
-- record of the bytes that each part took. This library models the helpers that all decoders
-- share, ARM's immediates, the decoders and the printers of all three, and the choice between them
-- by the architecture.
--
-- Base: the names and lemmas that the other modules share: Boolean tests, casts to 8, 16 and 32
-- bits, bit fields, signed numbers, and the laws of `|` and `&` (Base/Bits).
--
-- Utils (source/utils): Utils/Binary models binary.h, one function for each of its functions, with
-- 32-bit and 64-bit words as numbers below 2^32 and 2^64; a shift that C leaves undefined is
-- `none`. The loops recurse on fuel, 33 rounds for words of 32 bits, which is enough, since a
-- round halves the word. Utils/Datatype models datatype.h.
--
-- ArmImm (source/armimm.c): `decode_vfp_imm` over its table of 256 numbers, which are in 128ths
-- here, all exact, and `decode_advsimd_imm`, whose union is the list of its bytes.
--
-- X86 (source/x86/decoder.c, with the records of source/x86/db.h and include/amed.h): the state
-- `x86_internal` is the record Internal of X86/State, with the instruction in it, and each
-- function of the source is a function from that state to the next one and its result. Its
-- pointers into the arguments are places in the array. X86/Fetch reads and records bytes,
-- X86/Setters and X86/Prefix decode the prefixes, X86/Legacy is the loop of `decode_entry` over
-- the legacy prefixes, X86/Modrm the operands' bytes, X86/Register a register from its fields,
-- X86/Arguments one function for each kind of argument, X86/Nodes the loop over the arguments of a
-- template, and X86/Entry the rest of `decode_entry` and `amed_x86_decode_insn`. `decode_entry`
-- calls them in this order: prefixes, opcode, lookup, ModRM, arguments. X86/Diagram has the word
-- that the lookup takes. `pc` and `nb` are 8 bits, and sums with `pc` are made in `int`, as in C.
-- A store in a field is written in the order of the source, but where nothing reads it in between,
-- several stores are one record.
--
-- X86/Modrm/Operand states the length of an operand by the architecture's tables for 32 and 64-bit
-- addresses, which the source uses for 16-bit addresses too, and X86/Modrm/Length and
-- X86/Modrm/Sib are the way there. X86/Register/Number has the numbers of registers as the manual
-- writes them.
--
-- X86/Nodes/Others is about the types of the arguments but a node's own, for registers, with
-- X86/Nodes/Operands and X86/Nodes/Immediates for the other kinds, X86/Nodes/Made about the type of
-- its own, and X86/Nodes/Typed and X86/Nodes/Described about the arguments that are counted.
--
-- X86/Sizes is about the operand and the address size, with which the decoder looks up its tables.
--
-- The loop of prefixes is on fuel, 256 rounds: a round that goes on takes one of at most 255
-- bytes.
--
-- X86/Moves is about what a decoding does to the position and to the records: `Moves s t` says
-- that from `s` to `t` the position only grew, not past the end, and that the records, of which 15
-- fit, grew by as many bytes as the position. Each file there takes the functions of one part.
-- `Kept` says so of a result, and X86/Moves/Whole puts them together, with the one byte that
-- `decode_modrm` takes without a look at the end.
--
-- X86/Printer (source/x86/printer.c): each function is one to the text that it appends at `pc`, a
-- list of characters. X86/Printer/Numbers has those of a number, and X86/Printer/Operands those of
-- one argument. Base/Text has the formats of the standard library that the source uses; a text
-- that is too long for the size given to `sprintf_s` is `none`, and with it the whole call.
-- X86/Printer/Formats and X86/Printer/Values are about the numbers, X86/Printer/Separators about
-- what stands between the arguments, and X86/Printer/Returned about the number returned.
--
-- Aarch64 (source/aarch64/decoder.c, with the records of source/aarch64/db.h): the state
-- `aarch64_internal` is the record Internal of Aarch64/State. Aarch64/Fields has the bit mask
-- immediates, the fields of the opcode and the tables of their values (its proofs in
-- Aarch64/Fields/Logimm), Aarch64/Alias the conditions of aliases that are written by hand,
-- Aarch64/Arguments one function for each kind of argument, Aarch64/Nodes the loops over the
-- arguments, the templates and the aliases, and Aarch64/Entry `amed_aarch64_decode_insn`, which
-- decodes the encoding that the opcode is looked up to, and then the first of its aliases that
-- fits. A function of an argument takes the state and the argument and ends in a Result, which
-- also says where C leaves a call undefined: the sign extension of a field without bits.
-- Aarch64/Frame is about what a decoding returns and what it leaves as it was, in the order of the
-- functions. A node is a constructor with the fields that its type has, and a run of the tables is
-- a list. All loops are over such lists or over a count, so there is no fuel. Aarch64/Printer
-- (source/aarch64/printer.c) is as X86/Printer is, whose Formatter, white space and lowering loop
-- it takes; what `%f` prints is a part of the parameter Strings.
--
-- Aarch32 (source/aarch32/decoder.c, with the records of source/aarch32/db.h): the state
-- `aarch32_internal`, with the instruction and the IT block of the context in it, is the record
-- Internal of Aarch32/State. Aarch32/Fields has the fields of the opcode and the tables of their
-- values, Aarch32/Immediates the modified immediates of A32 and T32, Aarch32/Arguments one
-- function for each kind of argument, Aarch32/It the IT instruction and the condition under which
-- an instruction runs, Aarch32/Nodes the loops over the arguments, the templates and the aliases,
-- and Aarch32/Entry what fetches an instruction of 2 or 4 bytes and `amed_aarch32_decode_insn`.
-- `lsb`, `dst_reg` and what else the source does not set before it reads it come from the state
-- before the call. As for AArch64, all loops are over lists or counts, and a step that C leaves
-- undefined (a rotation by 0, a list longer than its 32 places) ends the call as Result.undefined
-- or `none`. `decode_conditional_execution` and the like always return true, which is left out.
-- Aarch32/Frame is about what each function leaves as it was, and about the words for which C
-- defines it (Frame/Defined, Readable, Operands and Returned). Aarch32/Printer
-- (source/aarch32/printer.c) is as Aarch64/Printer is, whose way to print a number it takes;
-- Aarch32/Printer/Datatypes has the data types after the mnemonic, which are noted in an array of
-- four places.
--
-- Dispatch (source/decoder.c and source/printer.c): the two tables of methods by the architecture
-- of the context, of which a build may leave some out. A method takes the context and the
-- instruction, which is one record with a part for each decoder's view of it, and returns both.
-- Dispatch/Decoded and Dispatch/Printed put together what the three decoders and the three
-- printers have in common.
--
-- The generated tables (source/x86/include, source/aarch64/include, source/aarch64/sysop.inc,
-- source/aarch32/include), `x86_lookup`, `aarch64_lookup_a64`, the three lookups of AArch32 and
-- `is_alias_condition_ok` are the parameters Database, and the tables of names
-- (source/x86/strings.c, source/aarch32/strings.c, source/aarch64/strings.c) the parameters
-- Strings, for which nothing is assumed; the table of operand widths alone is copied. An index out
-- of a table is 0 or no register. Not modelled: the tables of strings and the other generated
-- tables, the generator of all of these, and the programs in examples, which only call the
-- library.
pub mod Base
pub mod Utils
pub mod ArmImm
pub mod X86
pub mod Aarch64
pub mod Aarch32
pub mod Dispatch
