-- ===== src/Debugger/Commands.antt =====
-- The commands of `DebugConsole` in tools/te-rs/src/debug.rs. `read_source` reads the assembly
-- beside the map; the outer `none` of a result is a panic, a subtraction below zero.
pub mod Views
use mathlib.Core.Option
use sw_tos.Base.{
  ℕ, zero, suc, ◌+◌, ◌-◌, ◌/◌, ◌%◌, min, max, List, [], ◌∷◌, ◌++◌, map, concat, Option, none, some,
  Bool, true, false, ◌&&◌, ◌||◌, ltb, leb, ◌==◌, if◌then◌else◌, Bytes, Text, codes, bytes_eq,
  length, Result, ok, err, get_last?,
}
use sw_tos.Debugger.Commands.Views.{map_command}
use sw_tos.Debugger.Console.{DebugConsole, CommandResult, matched_map, text_result, request_result}
use sw_tos.Debugger.{
  DebugMap, Symbol, Instruction, symbol, source_at, disassemble, mapped_extent, source_location,
  source_lines, filter, registers_request, memory_request,
}
use sw_tos.Format.{decimal, hex, pad_right, parse, from_str_radix, strip_prefix, split_whitespace}
use sw_tos.Resource.{ResourceSnapshot}
use sw_tos.Debugger.Steps.{
  Outcome, address, and_then, breakpoint_command, disassemble_command, least_address, list_command,
  listed, listed_at, listed_instruction, listing, listing_address, marked, memory_command,
  memory_error, memory_result, named_address, no_source, parse_address, read_window, symbol_command,
}

-- The arms of `command`, by the number of words.
abbrev unknown_command : Result CommandResult Text
unknown_command = err (codes "unknown debugger command; use help")

abbrev pub help_lines : List Text
help_lines =
    codes "look:   map [hw|plan|live]  sym NAME  dis LOC [N]"
    ∷ codes "source: list LOC [N]  list (carries on)  N up to 25"
    ∷ codes "state:  regs [EP]  x ADDR [N]  bt"
    ∷ codes "run:    pause  continue  step  next"
    ∷ codes "break:  break LOC  bl  delete LOC"
    ∷ codes "shell:  !<shell command>, e.g. !ps -l, !kill 3, !help"
    ∷ codes "leave:  detach"
    ∷ []

abbrev help_result : Result CommandResult Text
help_result = ok (record { lines = help_lines; request = none })

abbrev kill_result : Result CommandResult Text
kill_result = ok (text_result (codes "use !kill <endpoint>, which the shell answers"))

abbrev pub is : Text → Text → Bool
is = bytes_eq

abbrev pub registers_result : ℕ → Result CommandResult Text
registers_result endpoint = ok (
    request_result (codes "requesting registers for endpoint " ++ decimal endpoint)
      (registers_request endpoint))

-- The fixed requests of one word.
unfoldable pub simple_1 : Text → Result CommandResult Text
unfolding decimal bytes_eq
simple_1 word =
    if is word (codes "regs")
    then registers_result 1
    else if is word (codes "pause")
    then ok (request_result (codes "pausing emulator") (4 ∷ []))
    else if is word (codes "continue") || is word (codes "c")
    then ok (request_result (codes "continuing emulator") (5 ∷ []))
    else if is word (codes "bl")
    then ok (request_result (codes "requesting breakpoints") (8 ∷ []))
    else if is word (codes "step") || is word (codes "s")
    then ok (request_result (codes "stepping one instruction") (9 ∷ []))
    else if is word (codes "next") || is word (codes "n")
    then ok (request_result (codes "stepping over call") (10 ∷ []))
    else if is word (codes "bt")
    then ok (request_result (codes "requesting ABI backtrace") (11 ∷ []))
    else if is word (codes "kill")
    then kill_result
    else if is word (codes "detach")
    then ok (request_result (codes "detaching from emulator") (12 ∷ []))
    else if is word (codes "help")
    then help_result
    else unknown_command

unfoldable pub command_1 :
    (Text → Option Text) → DebugConsole → Option ResourceSnapshot → Text → Outcome
unfolding map_command list_command simple_1 bytes_eq
command_1 read_source c resources word =
    if is word (codes "map")
    then Option.map (λ r. (c, r)) (map_command c resources (codes "all"))
    else if is word (codes "list")
    then list_command read_source c none none
    else some (c, simple_1 word)

-- An argument that is a number, with the message if it is none.
abbrev pub with_number {ℓ} : {A : Type ℓ} → Option ℕ → A → (ℕ → A) → A
with_number none missing next = missing
with_number (some n) missing next = next n

unfoldable pub simple_2 : DebugConsole → Text → Text → Result CommandResult Text
unfolding symbol_command memory_command breakpoint_command from_str_radix decimal bytes_eq
simple_2 c word value =
    if is word (codes "sym")
    then symbol_command c value
    else if is word (codes "regs")
    then with_number (parse 256 value) (err (codes "endpoint must be decimal")) registers_result
    else if is word (codes "x")
    then memory_command value 12
    else if is word (codes "break") || is word (codes "b")
    then breakpoint_command c value 6
    else if is word (codes "delete")
    then breakpoint_command c value 7
    else if is word (codes "kill")
    then kill_result
    else unknown_command

unfoldable pub command_2 :
    (Text → Option Text) → DebugConsole → Option ResourceSnapshot → Text → Text → Outcome
unfolding map_command list_command disassemble_command simple_2 bytes_eq
command_2 read_source c resources word value =
    if is word (codes "map")
    then Option.map (λ r. (c, r)) (map_command c resources value)
    else if is word (codes "list")
    then list_command read_source c (some value) none
    else if is word (codes "dis")
    then some (disassemble_command c value none)
    else some (c, simple_2 c word value)

abbrev pub usize_limit : ℕ
usize_limit = 0x10000000000000000

abbrev pub bad_count : Result CommandResult Text
bad_count = err (codes "count must be decimal")

unfoldable pub command_3 : (Text → Option Text) → DebugConsole → Text → Text → Text → Outcome
unfolding list_command disassemble_command memory_command from_str_radix bytes_eq
command_3 read_source c word value count =
    if is word (codes "list")
    then with_number (parse usize_limit count) (some (c, bad_count))
        (λ n. list_command read_source c (some value) (some n))
    else if is word (codes "dis")
    then with_number (parse usize_limit count) (some (c, bad_count))
        (λ n. some (disassemble_command c value (some n)))
    else if is word (codes "x")
    then some (
      c,
      with_number (parse 256 count) (err (codes "length must be decimal")) (memory_command value),
    )
    else if is word (codes "kill")
    then some (c, kill_result)
    else some (c, unknown_command)

unfoldable pub command_words :
    (Text → Option Text) → DebugConsole → Option ResourceSnapshot → List Text → Outcome
unfolding command_1 command_2 command_3 bytes_eq
command_words read_source c resources [] = some (c, help_result)
command_words read_source c resources (word ∷ []) = command_1 read_source c resources word
command_words read_source c resources (word ∷ value ∷ []) =
    command_2 read_source c resources word value
command_words read_source c resources (word ∷ value ∷ count ∷ []) =
    command_3 read_source c word value count
command_words read_source c resources (word ∷ more) =
    some (c, if is word (codes "kill") then kill_result else unknown_command)

-- `command`: an error is shown as a line.
abbrev pub or_text : Result CommandResult Text → CommandResult
or_text (ok r) = r
or_text (err e) = text_result e

abbrev pub shown : Outcome → Option (DebugConsole × CommandResult)
shown none = none
shown (some (c, result)) = some (c, or_text result)

unfoldable pub command :
    (Text → Option Text)
    → DebugConsole
    → Text
    → Option ResourceSnapshot
    → Option (DebugConsole × CommandResult)
unfolding command_words split_whitespace
command read_source c line resources =
    shown (command_words read_source c resources (split_whitespace line))
