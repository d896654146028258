-- ===== src/Debugger/Steps.antt =====
-- The steps that the commands of `DebugConsole` in tools/te-rs/src/debug.rs share: addresses, breakpoints,
-- memory, disassembly and the source listing. `read_source` reads the assembly beside the map; the
-- outer `none` of a result is a panic, a subtraction below zero.
use mathlib.Core.Option
use sw_tos.Base.{
  ℕ, ◌+◌, ◌-◌, ◌/◌, ◌%◌, min, max, List, [], ◌∷◌, ◌++◌, map, concat, Option, none, some, ◌&&◌, ltb,
  leb, ◌==◌, if◌then◌else◌, Text, codes, bytes_eq, Result, ok, err, get_last?,
}
use sw_tos.Debugger.Console.{DebugConsole, CommandResult, matched_map, text_result, request_result}
use sw_tos.Debugger.{
  DebugMap, Instruction, end_of, symbol, source_at, disassemble, mapped_extent, source_location,
  source_lines, filter, memory_request,
}
use sw_tos.Format.{decimal, hex, pad_right, from_str_radix, strip_prefix}

-- A fallible step after another.
abbrev pub and_then {ℓ} : {A B E : Type ℓ} → Result A E → (A → Result B E) → Result B E
and_then (ok a) next = next a
and_then (err e) next = err e

unfoldable pub parse_address : Text → Result ℕ Text
unfolding strip_prefix from_str_radix
parse_address value =
    let bad : Text = concat (codes "invalid 24-bit address '" ∷ value ∷ codes "'" ∷ []) in
    elim (from_str_radix 16 0x100000000 (Option.get_or (strip_prefix value (codes "0x")) value)) [
      | none ↦ err bad
      | some address ↦ if leb address 0xffffff then ok address else err bad
    ]

unfoldable pub symbol_command : DebugConsole → Text → Result CommandResult Text
unfolding matched_map symbol hex
symbol_command c name = and_then (matched_map c) (λ m. elim (symbol m name) [
  | none ↦ err (concat (codes "unknown symbol '" ∷ name ∷ codes "'" ∷ []))
  | some s ↦ ok (
      text_result (
        concat
          (s.name ∷ codes " = " ∷ hex 6 s.address ∷ codes " (" ∷ s.module_name ∷ codes ")" ∷ [])))
])

-- `address`: a number, then a symbol, then a source location; the error is the number's.
abbrev pub named_address : Text → Text → DebugMap → Result ℕ Text
named_address value bad m = elim (symbol m value) [
  | some s ↦ ok s.address
  | none ↦ elim (source_location m value) [ some address ↦ ok address | none ↦ err bad ]
]

unfoldable pub address : DebugConsole → Text → Result ℕ Text
unfolding parse_address matched_map symbol source_location
address c value = elim (parse_address value) [
  | ok number ↦ ok number
  | err bad ↦ and_then (matched_map c) (named_address value bad)
]

unfoldable pub breakpoint_command : DebugConsole → Text → ℕ → Result CommandResult Text
unfolding address
breakpoint_command c value opcode = and_then (address c value) (λ at. ok (
    request_result (if opcode == 6 then codes "setting breakpoint" else codes "deleting breakpoint")
      (opcode ∷ (at % 256) ∷ (at / 256 % 256) ∷ (at / 65536 % 256) ∷ [])))

abbrev pub memory_error : Text
memory_error = codes "memory request requires a 24-bit address and 1..12 bytes"

-- `memory_request(…)?` in a result with one line.
abbrev pub memory_result : Text → ℕ → ℕ → Result CommandResult Text
memory_result line at size = elim (memory_request at size) [
  | none ↦ err memory_error
  | some bytes ↦ ok (record { lines = line ∷ []; request = some bytes })
]

unfoldable pub memory_command : Text → ℕ → Result CommandResult Text
unfolding parse_address memory_request decimal hex
memory_command value size = and_then (parse_address value) (λ at.
    memory_result (concat (codes "requesting " ∷ decimal size ∷ codes " bytes at " ∷ hex 6 at ∷ []))
      at size)

-- `disassemble_command`: from the map, or else by a read of twelve bytes, which is remembered.
abbrev pub listed_instruction : Instruction → Text
listed_instruction i =
    concat (hex 6 i.address ∷ codes " " ∷ pad_right 8 i.bytes ∷ codes " " ∷ i.text ∷ [])

unfoldable pub read_window : DebugConsole → ℕ → Option ℕ → DebugConsole × Result CommandResult Text
unfolding memory_request decimal hex
read_window c at count =
    let shown = min (Option.get_or count 12) 12 in
    let line = concat (
      codes "decoding 12 bytes at "
      ∷ hex 6 at
      ∷ codes ", up to "
      ∷ decimal shown
      ∷ codes " instructions"
      ∷ []) in
    (record c { pending_disassembly = some (at, shown) }, memory_result line at 12)

unfoldable pub listed :
    DebugConsole → ℕ → Option ℕ → List Instruction → DebugConsole × Result CommandResult Text
unfolding read_window hex pad_right
listed c at count [] = read_window c at count
listed c at count (i ∷ is) =
    (c, ok (record { lines = map listed_instruction (i ∷ is); request = none }))

unfoldable pub disassemble_command :
    DebugConsole → Text → Option ℕ → DebugConsole × Result CommandResult Text
unfolding address matched_map disassemble
disassemble_command c value count = elim (address c value) [
  | err e ↦ (c, err e)
  | ok at ↦ elim (matched_map c) [
    | err e ↦ (c, err e)
    | ok m ↦ listed c at count (disassemble m at (min (Option.get_or count 8) 32))
  ]
]

-- `list_command`. The instruction that an address lies in, or else the next one.
unfoldable pub listed_at : DebugMap → ℕ → Option Instruction
unfolding source_at disassemble
listed_at m at = elim (source_at m at) [
  | some i ↦ some i
  | none ↦ elim (disassemble m at 1) [ [] ↦ none | i ∷ is ↦ some i ]
]

unfoldable pub no_source : DebugMap → ℕ → Option Text
unfolding mapped_extent hex
no_source m at = elim (mapped_extent m) [
  | none ↦ none
  | some none ↦ some (codes "no source for " ++ hex 6 at)
  | some (some (low, high)) ↦ some (
      concat (
        codes "no source for "
        ∷ hex 6 at
        ∷ codes "; image maps "
        ∷ hex 6 low
        ∷ codes "-"
        ∷ hex 6 high
        ∷ []))
]

-- The least address of a list of instructions.
unfoldable pub least_address : List Instruction → Option ℕ
least_address [] = none
least_address (i ∷ is) = elim (least_address is) [
  | none ↦ some i.address
  | some least ↦ some (min i.address least)
]

abbrev pub marked : Instruction → ℕ × Text → Text
marked i (number, line) = concat (
    (if number == i.line then codes ">" else codes " ")
    ∷ i.source
    ∷ codes ":"
    ∷ decimal number
    ∷ codes " "
    ∷ line
    ∷ [])

-- The lines around an instruction, and where a bare `list` carries on.
unfoldable pub listing : (Text → Option Text) → DebugMap → Instruction → ℕ → List Text × Option ℕ
unfolding source_lines filter least_address decimal hex
listing read_source m i wanted =
    let first = max (i.line - wanted / 2) 1 in
    let last = first + wanted - 1 in
    elim (source_lines read_source i.source first last) [
      | some source ↦
          let shown : ℕ = elim (get_last? source) [ none ↦ last | some (number, line) ↦ number ] in
          (
            map (marked i) source,
            least_address (
                filter (λ (j : Instruction). bytes_eq j.source i.source && ltb shown j.line)
                  m.instructions),
          )
      | none ↦ (
        concat (
              hex 6 i.address
              ∷ codes " "
              ∷ i.source
              ∷ codes ":"
              ∷ decimal i.line
              ∷ codes " "
              ∷ i.text
              ∷ [])
            ∷ [],
        some (end_of i),
      )
    ]

abbrev pub listing_address : DebugConsole → Option Text → Result ℕ Text
listing_address c (some value) = address c value
listing_address c none = elim c.next_listing [
  | none ↦ err (codes "nothing listed yet; use list LOC")
  | some at ↦ ok at
]

abbrev pub Outcome : Type 0
Outcome = Option (DebugConsole × Result CommandResult Text)

unfoldable pub list_command : (Text → Option Text) → DebugConsole → Option Text → Option ℕ → Outcome
unfolding address matched_map listed_at no_source listing
list_command read_source c value count = elim (listing_address c value) [
  | err e ↦ some (c, err e)
  | ok at ↦ elim (matched_map c) [
    | err e ↦ some (c, err e)
    | ok m ↦ elim (listed_at m at) [
      | none ↦ Option.map (λ message. (c, err message)) (no_source m at)
      | some i ↦
          let (lines, next) = listing read_source m i (max (min (Option.get_or count 10) 25) 1) in
          some (record c { next_listing = next }, ok (record { lines = lines; request = none }))
    ]
  ]
]
