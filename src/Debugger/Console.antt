-- ===== src/Debugger/Console.antt =====
-- `DebugConsole` of tools/te-rs/src/debug.rs: its state, and the lines that it makes of a response.
use sw_tos.Base.{
  ℕ, zero, suc, ◌+◌, ◌%◌, List, [], ◌∷◌, ◌++◌, map, concat, Option, none, some, Bool, leb, ◌==◌,
  if◌then◌else◌, Bytes, Text, codes, length, take, drop, Result, ok, err,
}
use sw_tos.Debugger.{DebugMap, require_match}
use sw_tos.Disasm.{Isa, decode}
use sw_tos.Format.{decimal, hex, pad_right, join}
use sw_tos.Resource.{u24}

pub record DebugConsole : Type 0 where
  pub debug_map : Option DebugMap
  pub target_build_id : Option ℕ
  pub pending_disassembly : Option (ℕ × ℕ)
  pub next_listing : Option ℕ

-- `DebugConsole::new`.
abbrev pub new_console : Option DebugMap → DebugConsole
new_console m = record {
  debug_map = m;
  target_build_id = none;
  pending_disassembly = none;
  next_listing = none;
}

pub record CommandResult : Type 0 where
  pub lines : List Text
  pub request : Option Bytes

-- `text` and `request`.
abbrev pub text_result : Text → CommandResult
text_result value = record { lines = value ∷ []; request = none }

abbrev pub request_result : Text → Bytes → CommandResult
request_result message payload = record { lines = message ∷ []; request = some payload }

-- `matched_map`: the map, when the target has given its identity and it is the map's.
unfoldable pub matched_map : DebugConsole → Result DebugMap Text
unfolding require_match
matched_map c = elim c.debug_map [
  | none ↦ err (codes "no debug map loaded")
  | some m ↦ elim c.target_build_id [
    | none ↦ err (codes "target build identity not received")
    | some target ↦ elim (require_match m target) [ ok matched ↦ ok m | err e ↦ err e ]
  ]
]

-- `chunks_exact(3)`, each read by `u24`, and the test that nothing is left over.
unfoldable pub triples : Bytes → List ℕ
unfolding u24
triples (a ∷ b ∷ c ∷ rest) = u24 (a ∷ b ∷ c ∷ []) ∷ triples rest
triples short = []

abbrev pub is_whole : Bytes → Bool
is_whole bytes = length bytes % 3 == 0

-- `[1, low, middle, high]`.
unfoldable pub identity_response : DebugConsole → ℕ → DebugConsole × List Text
unfolding require_match hex
identity_response c target = (
  record c { target_build_id = some target },
  elim c.debug_map [
    | none ↦ concat (codes "target build crc24:" ∷ hex 6 target ∷ codes "; no map loaded" ∷ []) ∷ []
    | some m ↦ elim (require_match m target) [
      | ok matched ↦ (codes "build matched " ++ m.build_id) ∷ []
      | err error ↦ error ∷ []
    ]
  ],
)

-- `[2, endpoint, part, values..]`.
unfoldable pub named_values : List ℕ → List Text → List Text
unfolding hex
named_values (value ∷ values) (name ∷ names) =
    concat (name ∷ codes "=" ∷ hex 6 value ∷ []) ∷ named_values values names
named_values _ _ = []

unfoldable pub registers_response : ℕ → ℕ → Bytes → List Text
unfolding named_values triples decimal join
registers_response endpoint part values =
    let names : List Text =
      if part == 0
      then codes "r0" ∷ codes "r1" ∷ codes "r2" ∷ codes "sp" ∷ []
      else codes "pc" ∷ codes "status" ∷ [] in
    let rendered = join (codes " ") (named_values (triples values) names) in
    concat (codes "ep=" ∷ decimal endpoint ∷ codes " " ∷ rendered ∷ []) ∷ []

-- `disassemble_bytes`: the loop, by the lines that may still come. The address wraps at 32 bits.
unfoldable pub decoded_lines : {O : Type 0} → Isa O → ℕ → ℕ → Bytes → ℕ → List Text
unfolding decode hex pad_right
decoded_lines isa zero address window offset = []
decoded_lines isa (suc count) address window offset =
    let at = (address + offset) % 0x100000000 % 0x1000000 in
    let rest = drop offset window in
    if leb (length window) offset then [] else elim (decode isa rest at) [
      | none ↦ []
      | some decoded ↦
          let bytes = concat (map (hex 2) (take decoded.size rest)) in
          concat (hex 6 at ∷ codes " " ∷ pad_right 8 bytes ∷ codes " " ∷ decoded.text ∷ [])
          ∷ decoded_lines isa count address window (offset + decoded.size)
    ]

unfoldable pub disassemble_bytes : {O : Type 0} → Isa O → ℕ → Bytes → ℕ → List Text
unfolding decoded_lines hex
disassemble_bytes isa address window count = elim (decoded_lines isa count address window 0) [
  | [] ↦ (codes "no instruction decoded at " ++ hex 6 address) ∷ []
  | line ∷ lines ↦ line ∷ lines
]

-- `[3, a0, a1, a2, data..]`: what was pending is taken, whether it is for this address or not.
abbrev pub dump : ℕ → Bytes → Text
dump address window =
    concat (hex 6 address ∷ codes ": " ∷ join (codes " ") (map (hex 2) window) ∷ [])

unfoldable pub memory_response :
    {O : Type 0} → Isa O → DebugConsole → ℕ → Bytes → DebugConsole × List Text
unfolding disassemble_bytes hex join
memory_response isa c address window = (
  record c { pending_disassembly = none },
  elim c.pending_disassembly [
    | none ↦ dump address window ∷ []
    | some (wanted, count) ↦
        if wanted == address
        then disassemble_bytes isa address window count
        else dump address window ∷ []
  ],
)
