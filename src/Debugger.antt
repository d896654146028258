-- ===== src/Debugger.antt =====
-- The debug map of tools/te-rs/src/debug.rs: what it says of an address, and the requests that the
-- console sends. The files under this one have the console.
pub mod Lookup
pub mod Console
pub mod Responses
pub mod Steps
pub mod Reads
pub mod Addresses
pub mod Commands
use mathlib.Core.Option
use sw_tos.Base.{
  ℕ, ◌+◌, ◌-◌, ◌%◌, ◌/◌, List, [], ◌∷◌, Option, none, some, Bool, true, false, ◌&&◌, ◌||◌, ltb, leb,
  ◌==◌, if◌then◌else◌, Bytes, Text, bytes_eq, take, get_last?, suc, ◌++◌, concat, codes, Result, ok,
  err,
}
use sw_tos.Format.{
  hex, parse, from_str_radix, strip_prefix, contains, lines, rsplit_once, ends_with,
}

pub record Symbol : Type 0 where
  pub name : Text
  pub address : ℕ
  pub module_name : Text

pub record Function : Type 0 where
  pub name : Text
  pub address : ℕ
  pub end_address : ℕ
  pub module_name : Text

pub record Instruction : Type 0 where
  pub address : ℕ
  pub size : ℕ
  pub bytes : Text
  pub text : Text
  pub source : Text
  pub line : ℕ

-- `DebugMap`, without the fields that only loading reads.
pub record DebugMap : Type 0 where
  pub build_id : Text
  pub symbols : List Symbol
  pub functions : List Function
  pub instructions : List Instruction

-- `iter().find(test)`, `iter().rev().find(test)` and `iter().filter(test)`.
unfoldable pub find {ℓ} : {A : Type ℓ} → (A → Bool) → List A → Option A
find test [] = none
find test (x ∷ xs) = if test x then some x else find test xs

unfoldable pub find_last {ℓ} : {A : Type ℓ} → (A → Bool) → List A → Option A
find_last test [] = none
find_last test (x ∷ xs) = elim (find_last test xs) [
  | some found ↦ some found
  | none ↦ if test x then some x else none
]

unfoldable pub filter {ℓ} : {A : Type ℓ} → (A → Bool) → List A → List A
filter test [] = []
filter test (x ∷ xs) = if test x then x ∷ filter test xs else filter test xs

unfoldable pub symbol : DebugMap → Text → Option Symbol
unfolding find bytes_eq
symbol m name = find (λ (s : Symbol). bytes_eq s.name name) m.symbols

-- The end of an instruction: the sum of two `u32`, which wraps around; a build that checks its
-- sums panics there instead.
abbrev pub end_of : Instruction → ℕ
end_of i = (i.address + i.size) % 0x100000000

-- `filter` on the result of `source_at`: the address lies inside.
abbrev pub inside : ℕ → Option Instruction → Option Instruction
inside address none = none
inside address (some i) = if ltb address (end_of i) then some i else none

unfoldable pub source_at : DebugMap → ℕ → Option Instruction
unfolding find_last
source_at m address =
    inside address (find_last (λ (i : Instruction). leb i.address address) m.instructions)

unfoldable pub function_at : DebugMap → ℕ → Option Function
unfolding find
function_at m address =
    find (λ (f : Function). leb f.address address && ltb address f.end_address) m.functions

unfoldable pub disassemble : DebugMap → ℕ → ℕ → List Instruction
unfolding filter
disassemble m address count =
    take count (filter (λ (i : Instruction). leb address i.address) m.instructions)

abbrev pub identity_request : Bytes
identity_request = 1 ∷ []

abbrev pub registers_request : ℕ → Bytes
registers_request endpoint = 2 ∷ endpoint ∷ []

-- `memory_request`: `none` is its error.
unfoldable pub memory_request : ℕ → ℕ → Option Bytes
memory_request address length =
    if length == 0 || ltb 12 length || ltb 0xffffff address
    then none
    else some (3 ∷ (address % 256) ∷ (address / 256 % 256) ∷ (address / 65536 % 256) ∷ length ∷ [])

-- `build_id_value` and `require_match`: an error is its message.
unfoldable pub build_id_value : DebugMap → Result ℕ Text
unfolding strip_prefix from_str_radix
build_id_value m =
    let invalid : Text = concat (codes "invalid build ID '" ∷ m.build_id ∷ codes "'" ∷ []) in
    elim (strip_prefix m.build_id (codes "crc24:")) [
      | none ↦ err invalid
      | some value ↦ elim (from_str_radix 16 0x100000000 value) [
        | none ↦ err invalid
        | some number ↦ if leb number 0xffffff then ok number else err invalid
      ]
    ]

abbrev pub mismatch : ℕ → DebugMap → Text
mismatch target m =
    concat
      (codes "symbol map mismatch: target crc24:" ∷ hex 6 target ∷ codes ", map " ∷ m.build_id ∷ [])

unfoldable pub require_match : DebugMap → ℕ → Result (Unit {0}) Text
unfolding build_id_value hex
require_match m target = elim (build_id_value m) [
  | err e ↦ err e
  | ok expected ↦ if expected == target then ok tt else err (mismatch target m)
]

-- `mapped_extent`; the outer `none` is the panic of a subtraction below zero.
unfoldable pub mapped_extent : DebugMap → Option (Option (ℕ × ℕ))
mapped_extent m = elim m.instructions [
  | [] ↦ some none
  | first ∷ rest ↦ elim (get_last? (first ∷ rest)) [
    | none ↦ some none
    | some last ↦
        let end = end_of last in if end == 0 then none else some (some (first.address, end - 1))
  ]
]

-- `source_location`: FILE:LINE to an address.
unfoldable pub source_location : DebugMap → Text → Option ℕ
unfolding rsplit_once from_str_radix find ends_with
source_location m value = elim (rsplit_once b':' value) [
  | none ↦ none
  | some (source, line) ↦ elim (parse 0x100000000 line) [
    | none ↦ none
    | some number ↦
        Option.map (λ (i : Instruction). i.address)
          (find (λ (i : Instruction). i.line == number && ends_with i.source source) m.instructions)
  ]
]

-- `source_lines`: the assembly beside the map is a parameter, by its name.
abbrev numbered : ℕ → List Text → List (ℕ × Text)
numbered n [] = []
numbered n (line ∷ lines) = (n, line) ∷ numbered (suc n) lines

unfoldable pub source_lines : (Text → Option Text) → Text → ℕ → ℕ → Option (List (ℕ × Text))
unfolding contains lines filter
source_lines read_source name first last =
    if bytes_eq name [] || contains name (codes "/") || contains name (codes "..")
    then none
    else elim (read_source name) [
      | none ↦ none
      | some text ↦
          elim (filter
            (λ (numbered_line : ℕ × Text). leb first numbered_line.0 && leb numbered_line.0 last)
            (numbered 1 (lines text))) [ [] ↦ none | line ∷ rest ↦ some (line ∷ rest) ]
    ]
