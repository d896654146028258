-- ===== src/Tests/Consoles.antt =====
-- Runs of the debugger's console and of the instruction decoder, of tools/te-rs/src/debug.rs and
-- disasm.rs.
use sw_tos.Base.{
  ℕ, [], ◌∷◌, ◌≡◌, none, some, Option, refl, arith, ok, err, Text, codes, if◌then◌else◌, ◌==◌, ◌+◌,
  ◌*◌, ◌⊎◌, inr, ◌≢◌, ◌∙◌, sym, ap, Result,
}
use mathlib.Core.Option
use sw_tos.Debugger.Commands.{command, command_words, command_1, simple_1}
use sw_tos.Debugger.Console.{DebugConsole, new_console, CommandResult, request_result}
use sw_tos.Debugger.Reads.{Refuses, refused_without_match}
use sw_tos.Debugger.{DebugMap, build_id_value}
use sw_tos.Disasm.Table.{table_lem, byte_of, IsEncoding}
use sw_tos.Disasm.{Isa, InstructionFormat, Variant, Entry, table, decode, decode_entry}
use sw_tos.Format.{split_whitespace}

abbrev pub size_of : InstructionFormat → ℕ
size_of InstructionFormat.single_byte = 1
size_of InstructionFormat.two_bytes = 2
size_of InstructionFormat.four_bytes = 4

-- An instruction set of two opcodes, of one byte and of two.
abbrev pub small_isa : Isa ℕ
small_isa = record {
  opcode_from = λ value. value;
  encode_instruction = λ opcode ra rb.
      if opcode == 0
      then some (ra * 8 + rb)
      else if opcode == 1
      then some (64 + ra * 8 + rb)
      else none;
  format =
      λ opcode. if opcode == 0 then InstructionFormat.single_byte else InstructionFormat.two_bytes;
  size = size_of;
  mnemonic = λ opcode. if opcode == 0 then codes "add" else codes "lc";
  reg_name = λ index. codes "r";
  variant = λ opcode. if opcode == 0 then Variant.other else Variant.lc;
}

table_lem_example :
    ((e : Entry small_isa) × (table small_isa 77 ≡ some e) × (byte_of small_isa e ≡ some 77))
    ⊎ ((table small_isa 77 ≡ none) × (¬ IsEncoding small_isa 77))
table_lem_example = table_lem small_isa 77

abbrev unreadable : Text → Option Text
unreadable name = none

abbrev pausing : CommandResult
pausing = request_result (codes "pausing emulator") (4 ∷ [])

pause_command :
    command unreadable (new_console none) (codes " pause ") none ≡ some (new_console none, pausing)
unfolding command command_words command_1 simple_1 split_whitespace
pause_command = refl

-- A target of another build than the map's.
abbrev other_map : DebugMap
other_map = record {
  build_id = codes "crc24:00002a";
  symbols = [];
  functions = [];
  instructions = [];
}

abbrev other_build : DebugConsole
other_build = record (new_console (some other_map)) {
  target_build_id = some 43;
  next_listing = some 0x100;
}

build_id_42 : build_id_value other_map ≡ ok 42
unfolding build_id_value
build_id_42 = refl

abbrev number_of : Result ℕ Text → ℕ
number_of (ok n) = n
number_of (err e) = 0

other_number : build_id_value other_map ≢ ok 43
other_number e =
    let same : 42 ≡ number_of (ok 43) = ap number_of (sym build_id_42 ∙ e) in
    absurd (omega (arith, same))

refused_without_match_example : Refuses unreadable other_build (codes "main") none
refused_without_match_example =
    refused_without_match unreadable other_build (codes "main") none
      (inr (inr (other_map, 43, refl, refl, other_number)))

two_byte_instruction :
    decode small_isa (77 ∷ 5 ∷ []) 0 ≡ some (record { text = codes "lc r,5"; size = 2 })
unfolding decode decode_entry
two_byte_instruction = refl
