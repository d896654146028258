-- ===== src/Debugger/Responses.antt =====
-- The lines that `DebugConsole::response` in tools/te-rs/src/debug.rs makes of a response.
use mathlib.Core.Option
use sw_tos.Base.{
  ℕ, suc, ◌+◌, ◌*◌, List, [], ◌∷◌, ◌++◌, concat, Option, none, some, Bool, false, not, ◌&&◌, ◌||◌,
  ◌==◌, if◌then◌else◌, Bytes, Text, codes, length,
}
use sw_tos.Debugger.{Function, function_at, filter}
use sw_tos.Disasm.{Isa}
use sw_tos.Format.{decimal, hex, contains}
use sw_tos.Resource.{u24}
use sw_tos.Debugger.Console.{
  DebugConsole, triples, is_whole, identity_response, registers_response, memory_response,
}

-- `[4, reason, a0, a1, a2]`.
unfoldable pub stop_reason : ℕ → Text
stop_reason reason =
    if reason == 1
    then codes "breakpoint"
    else if reason == 2
    then codes "paused"
    else if reason == 3
    then codes "running"
    else if reason == 4
    then codes "halted"
    else if reason == 5
    then codes "invalid instruction"
    else if reason == 6
    then codes "stack overflow"
    else if reason == 7
    then codes "stack underflow"
    else codes "unknown"

-- The function at an address, if there is a map.
abbrev pub named_at : DebugConsole → ℕ → Option Text
named_at c address = elim c.debug_map [
  | none ↦ none
  | some m ↦ Option.map (λ (f : Function). f.name) (function_at m address)
]

unfoldable pub frame_name : DebugConsole → ℕ → Text
unfolding function_at
frame_name c address = Option.get_or (named_at c address) (codes "??")

-- `[8, count, addresses..]`, line by line.
unfoldable pub breakpoint_lines : DebugConsole → ℕ → List ℕ → List Text
unfolding function_at hex decimal
breakpoint_lines c index [] = []
breakpoint_lines c index (address ∷ addresses) =
    let name : Text = elim (named_at c address) [ none ↦ [] | some text ↦ codes " " ++ text ] in
    concat (decimal (index + 1) ∷ codes ": " ∷ hex 6 address ∷ name ∷ [])
    ∷ breakpoint_lines c (suc index) addresses

unfoldable pub breakpoints_response : DebugConsole → ℕ → List ℕ → List Text
unfolding breakpoint_lines
breakpoints_response c count addresses =
    if count == 0 then codes "breakpoints: none" ∷ [] else breakpoint_lines c 0 addresses

-- `[11, pc, fp, sp, words..]`: the words that are return addresses of functions not seen yet.
unfoldable pub any_contains : Text → List Text → Bool
unfolding contains
any_contains needle [] = false
any_contains needle (line ∷ lines) = contains line needle || any_contains needle lines

unfoldable pub callers : DebugConsole → List ℕ → List Text → List Text
unfolding function_at any_contains hex decimal
callers c [] lines = lines
callers c (address ∷ addresses) lines =
    let here = codes "pc=" ++ hex 6 address in
    elim (named_at c address) [
      | none ↦ callers c addresses lines
      | some name ↦ callers c addresses (
          if any_contains here lines
          then lines
          else lines
            ++ concat
                (codes "#" ∷ decimal (length lines) ∷ codes " " ∷ name ∷ codes " " ∷ here ∷ [])
              ∷ [])
    ]

unfoldable pub backtrace_response : DebugConsole → ℕ → ℕ → ℕ → List ℕ → List Text
unfolding callers frame_name filter hex
backtrace_response c pc fp sp words =
    let top = concat (
      codes "#0 "
      ∷ frame_name c pc
      ∷ codes " pc="
      ∷ hex 6 pc
      ∷ codes " fp="
      ∷ hex 6 fp
      ∷ codes " sp="
      ∷ hex 6 sp
      ∷ []) in
    let lines = callers c (filter (λ value. not (value == 0)) words) (top ∷ []) in
    if length lines == 1
    then lines ++ codes "best-effort stack scan found no caller" ∷ []
    else lines

abbrev pub invalid : List Text
invalid = codes "invalid debug response" ∷ []

-- The arms of `response`, by the first byte. The body of each is the rest of the payload.
unfoldable pub respond_2 : Bytes → List Text
unfolding registers_response
respond_2 (endpoint ∷ part ∷ values) =
    if is_whole values then registers_response endpoint part values else invalid
respond_2 short = invalid

unfoldable pub respond_4 : Bytes → List Text
unfolding stop_reason u24 hex
respond_4 (reason ∷ a ∷ b ∷ c ∷ []) =
    concat (stop_reason reason ∷ codes " at " ∷ hex 6 (u24 (a ∷ b ∷ c ∷ [])) ∷ []) ∷ []
respond_4 other = invalid

unfoldable pub respond_8 : DebugConsole → Bytes → List Text
unfolding breakpoints_response triples
respond_8 c (count ∷ addresses) =
    if length addresses == count * 3
    then breakpoints_response c count (triples addresses)
    else invalid
respond_8 c [] = invalid

unfoldable pub respond_11 : DebugConsole → Bytes → List Text
unfolding backtrace_response triples u24
respond_11 c (p0 ∷ p1 ∷ p2 ∷ f0 ∷ f1 ∷ f2 ∷ s0 ∷ s1 ∷ s2 ∷ words) =
    if is_whole words
    then backtrace_response c (u24 (p0 ∷ p1 ∷ p2 ∷ [])) (u24 (f0 ∷ f1 ∷ f2 ∷ []))
        (u24 (s0 ∷ s1 ∷ s2 ∷ [])) (triples words)
    else invalid
respond_11 c short = invalid

unfoldable pub respond_13 : Bytes → List Text
unfolding decimal
respond_13 (endpoint ∷ status ∷ []) =
    if status == 0
    then (codes "kill requested for endpoint " ++ decimal endpoint) ∷ []
    else concat
        (codes "cannot kill endpoint " ∷ decimal endpoint ∷ codes ": status " ∷ decimal status ∷ [])
      ∷ []
respond_13 other = invalid

unfoldable pub respond_1 : DebugConsole → Bytes → DebugConsole × List Text
unfolding identity_response u24
respond_1 c (low ∷ middle ∷ high ∷ []) = identity_response c (u24 (low ∷ middle ∷ high ∷ []))
respond_1 c other = (c, invalid)

unfoldable pub respond_3 : {O : Type 0} → Isa O → DebugConsole → Bytes → DebugConsole × List Text
unfolding memory_response u24
respond_3 isa c (a ∷ b ∷ d ∷ window) = memory_response isa c (u24 (a ∷ b ∷ d ∷ [])) window
respond_3 isa c short = (c, invalid)

-- `response`.
unfoldable pub response : {O : Type 0} → Isa O → DebugConsole → Bytes → DebugConsole × List Text
unfolding respond_1 respond_2 respond_3 respond_4 respond_8 respond_11 respond_13
response isa c [] = (c, invalid)
response isa c (kind ∷ body) =
    if kind == 1
    then respond_1 c body
    else if kind == 2
    then (c, respond_2 body)
    else if kind == 3
    then respond_3 isa c body
    else if kind == 4
    then (c, respond_4 body)
    else if kind == 8
    then (c, respond_8 c body)
    else if kind == 11
    then (c, respond_11 c body)
    else if kind == 12 && length body == 0
    then (c, codes "detached from emulator" ∷ [])
    else if kind == 13
    then (c, respond_13 body)
    else (c, invalid)
