-- ===== src/Adapter/Decoder.antt =====
-- The adapter's `Decoder`: frames, and the raw heartbeats between them.
pub mod Marks
pub mod Turns
pub mod Stream
use sw_tos.Base.{
  ℕ, suc, ◌+◌, ◌*◌, ◌-◌, min, List, [], ◌∷◌, ◌++◌, Option, none, some, Bool, true, false, ◌&&◌,
  ◌||◌, ltb, ◌==◌, if◌then◌else◌, Bytes, length, take, drop, get_or, get_last?, starts_with,
  find_window,
}
use sw_tos.Adapter.{Frame, raw_uart}
use sw_tos.Protocol.{sync, checksum}
use sw_tos.Scanner.{Turn, stop, next, scan}

-- The first two bytes of a heartbeat.
abbrev pub heartbeat : Bytes
heartbeat = 0xff ∷ 1 ∷ []

-- A buffer that starts with a heartbeat: five bytes are taken whole.
unfoldable pub at_heartbeat : Bytes → Turn Frame
at_heartbeat (a ∷ b ∷ c ∷ d ∷ e ∷ rest) =
    next (record { kind = raw_uart; channel = 0; payload = a ∷ b ∷ c ∷ d ∷ e ∷ [] } ∷ []) rest
at_heartbeat short = stop short

-- A buffer that starts with SYNC. A frame with another version or checksum is drained silently.
unfoldable pub at_frame : Bytes → Turn Frame
unfolding checksum
at_frame (s0 ∷ s1 ∷ v ∷ kind ∷ channel ∷ l0 ∷ l1 ∷ body) =
    let buffer = s0 ∷ s1 ∷ v ∷ kind ∷ channel ∷ l0 ∷ l1 ∷ body in
    let size = l0 + l1 * 256 in
    let sum = checksum (v ∷ kind ∷ channel ∷ l0 ∷ l1 ∷ take size body) in
    let frame : Frame = record { kind = kind; channel = channel; payload = take size body } in
    if ltb (length buffer) 8
    then stop buffer
    else if ltb (length buffer) (size + 8)
    then stop buffer
    else if sum == get_or body size 0 && v == 1
    then next (frame ∷ []) (drop (suc size) body)
    else next [] (drop (suc size) body)
at_frame short = stop short

-- The first of the two positions.
abbrev pub earlier : Option ℕ → Option ℕ → Option ℕ
earlier (some a) (some b) = some (min a b)
earlier (some a) none = some a
earlier none other = other

-- The buffer that is kept when it holds neither mark.
abbrev may_begin : Bytes → Bool
may_begin b = elim (get_last? b) [ none ↦ false | some byte ↦ byte == 0xa5 || byte == 0xff ]

pub kept_tail : Bytes → Bytes
kept_tail b = if may_begin b then drop (length b - 1) b else []

-- What stands at the position. The `continue` before a heartbeat leads to the first lines of the
-- loop, which handle it.
unfoldable pub at_mark : Bytes → Turn Frame
unfolding starts_with at_heartbeat at_frame
at_mark b = if starts_with b heartbeat then at_heartbeat b else at_frame b

-- One turn of the loop.
unfoldable pub turn : Bytes → Turn Frame
unfolding starts_with at_heartbeat find_window at_mark kept_tail
turn b =
    if starts_with b heartbeat
    then at_heartbeat b
    else elim (earlier (find_window b sync) (find_window b heartbeat)) [
      | none ↦ stop (kept_tail b)
      | some at ↦ at_mark (drop at b)
    ]

pub record Decoder : Type 0 where
  pub bytes : Bytes

-- `Decoder::default`.
abbrev pub fresh : Decoder
fresh = record { bytes = [] }

unfoldable pub push : Decoder → Bytes → Decoder × List Frame
unfolding scan turn
push d input = let done = scan turn (d.bytes ++ input) in (record { bytes = done.rest }, done.items)
