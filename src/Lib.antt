-- ===== src/Lib.antt =====
-- The Python tools of koit: what happens to a compiled unit on its way to the kernel. The compiler
-- writes a document (`koitc emit --json`) with the maps, the programs as instruction words with
-- relocations, the types with their layouts, and the verdicts. The tools read it:
-- `tools/koitobj.py` holds what they share, `tools/elf.py` writes the document as the ELF
-- relocatable that libbpf loads, and `tools/load.py` loads it over the system call. Beside them
-- stands the transcriber, `tools/transcribe/transcribe.py`, which reads the kernel's side of the
-- interface (helpers, prototypes, program types, kfuncs, context structs, values) from a Linux
-- tree and writes it as a Lean file.
--
-- The parts, and where they are modelled:
--   Document: `Unit` and the document's entries as records. Document/Layout: the type
--     descriptions and `Types` (`resolve`, `size`, `align`). Document/Format: `Types.format`.
--   Btf, Btf/Monad, Btf/Blob, Btf/CType, Btf/OfType: the class `Btf`, a state of type records,
--     string table and cache of ids; every method is a function in a monad of that state with
--     errors (`int`, `array` and `struct` are `int_type`, `array_type` and `struct_type`; `once` is
--     the caching that `int`, `fwd` and `of_type` do by hand). Btf/Reader: `read_btf` and
--     `kfunc_id`.
--   Reloc: `words_of`, `patch` and `insns_bytes`. Report: `verdict_name`, `report_map`,
--     `map_btf`.
--   Elf: the class `Elf`, a state of sections, symbols and string table. Elf/Layout and
--     Elf/Build: `Elf.build`. Elf/Maps, Elf/Data, Elf/Programs, Elf/Info, Elf/Write:
--     `map_definition` and `write`, whose local variables are the record `Writer` where they live
--     across its stages.
--   Load: of `tools/load.py` the version check, the values that `create_map` writes into a map,
--     and `ringbuf_records` on the pages that it maps. Load/Machine: the kernel and the machine as
--     a record that everything else takes as a parameter, `bpf`, and the monad of the loader, in
--     which the kernel's state and the trace of what was done stay where an exception is raised.
--     Load/Attr: the attributes. Load/Maps: `create_map`, `lookup`, `keys`, `read_map`.
--     Load/Programs: `load_program`, `test_run`. Load/Main: `main`, in its stages.
--   Transcribe: of `tools/transcribe/transcribe.py` the tree (`Tree`, with git as a function that
--     it calls), texts and patterns. Transcribe/Enums: enumerations. Transcribe/Values: `#define`s
--     and `parse_values`. Transcribe/Layout: `layout_struct`. Transcribe/Protos and ProtoFns: the
--     helpers' numbers and prototypes, and the functions that hand them out. Transcribe/ProgTypes:
--     program types, their operations and sections. Transcribe/Kfuncs: kfunc sets and definitions.
--     Transcribe/Side: what is read. Transcribe/Lean: the printers and `emit`. Transcribe/Main:
--     `parse_changes_pkt` and `main`.
--   Base and its children: lists, bytes, bits, dictionaries in insertion order, stable sorting,
--     text, integers and exceptions as the tools use them of Python. Base/Utf8: `decode`. Base/Regex: Python's `re` as a
--     backtracking matcher; the patterns of the transcriber are its data, each with the pattern
--     that it stands for above it.
--   The modules of the proofs stand below the part that they are about: Document/Laws;
--     Btf/Strings, Extra, Records, RoundTrip, Encoders, Members and Lookup; Reloc/Fields, Steps, Laws and
--     Encoding; Report/Laws; Elf/Layout/Padding, Order, Locals and Placement; Elf/File, Symbols,
--     Tables, Whole and Groups; Load/Version with Parts, Ringbuf, Records, Contents, Creation with Filling, Emits, Order
--     with its children, Walk and Refusals; Transcribe/Enums/Rules and Numbering, Values/First, Layout/Rules,
--     Placing and Struct, Lean/Strings and Tables, ProtoFns/Shared, Main/Helpers. Tests and
--     MachineTests have runs on concrete inputs.
--
-- Conventions. Numbers are natural numbers where the tools have no negative ones; `struct.pack` is
-- `pack`, which fails for a number that its field cannot hold, and `struct.unpack_from` fails
-- behind the end of the bytes. An exception is an `Error`; its text is not modelled. Text is its
-- UTF-8 bytes, in the transcriber its code points; bytes that are decoded as text are looked at for
-- their form (`decode`). A relocation, a map or a type description has
-- the fields that the tools read, so that a field of the document that is missing is an `Option`
-- only where the tools look for that.
--
-- Bounds. The padding loop runs for as many rounds as the alignment, which reach the next
-- multiple. `read_btf` has a round for each byte of the types, and a type takes twelve. `resolve`
-- has a round for each name of the document and one more: a chain of names that ends passes each
-- name once; a chain that does not end is `out_of_fuel`, where Python does not return. `of_type`
-- nests names as deep as there are names; a type that contains itself by name is `out_of_fuel`,
-- where Python ends with a `RecursionError`. The stars of a C type are at most its letters.
-- `ringbuf_records` has as many rounds as the producer is ahead of the consumer, and a record
-- takes eight bytes at least. `keys` asks once more often than the map has entries; a kernel that
-- goes on giving keys is `out_of_fuel`. A repetition in a pattern and a search have a round for
-- each letter left, and each round takes one.
--
-- Not modelled: reading and writing files, the command line and JSON; of the loader the verifier's
-- logs, the descriptors' numbers beyond what the kernel answers, and a failure of `mmap`; of the
-- transcriber the warnings on stderr, the cache of the files shown (git shows the same at a tag)
-- and letters beyond ASCII in patterns; and the compiler, which is written in Lean. The kernel,
-- git and the kernel's parser of its documentation, `scripts/bpf_doc.py`, are parameters.
pub mod Base
pub mod Document
pub mod Btf
pub mod Reloc
pub mod Report
pub mod Elf
pub mod Load
pub mod Transcribe
