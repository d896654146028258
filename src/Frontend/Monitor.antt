-- ===== src/Frontend/Monitor.antt =====
-- The answers of the monitor, in tools/te-rs/src/main.rs: the echo that is waited for, and the error
-- behind a wrong byte. The system's calls are the turns of the loops.
pub mod Echoed
use mathlib.Core.Option
use sw_tos.Base.{
  ℕ, suc, ◌+◌, ◌-◌, List, [], ◌∷◌, ◌++◌, map, concat, Option, none, some, Bool, true, false, not,
  ◌&&◌, ◌||◌, leb, ltb, ◌==◌, if◌then◌else◌, Bytes, Text, codes, length, get_or, get_last?,
  from_utf8_lossy, Result, ok, err,
}
use sw_tos.Format.{decimal, hex, contains, trim}

abbrev pub max_monitor_response : ℕ
max_monitor_response = 1024

abbrev pub monitor_error_patterns : List Text
monitor_error_patterns =
    codes "invalid" ∷ codes "too long" ∷ codes "bad hex" ∷ codes "unknown command" ∷ []

-- `to_ascii_lowercase`.
abbrev pub lowercase : ℕ → ℕ
lowercase c = if leb b'A' c && leb c b'Z' then c + 32 else c

unfoldable pub first_contained : Text → List Text → Option Text
unfolding contains
first_contained text [] = none
first_contained text (pattern ∷ patterns) =
    if contains text pattern then some pattern else first_contained text patterns

unfoldable pub monitor_error : Bytes → Option Text
unfolding first_contained from_utf8_lossy
monitor_error response =
    first_contained (map lowercase (from_utf8_lossy response)) monitor_error_patterns

abbrev is_some : Option Text → Bool
is_some none = false
is_some (some pattern) = true

-- What a turn of a loop of reads finds before the deadline: a byte, which is shown, no byte, an
-- interrupted call, or a call that fails. After the last turn the deadline has passed.
pub data Turn : Type 0 where
  arrived : ℕ → Turn
  quiet interrupted : Turn
  broken : Text → Turn

pub data ErrorKind : Type 0 where
  timed_out invalid_data other : ErrorKind

pub record IoError : Type 0 where
  pub kind : ErrorKind
  pub message : Text

-- What `read_monitor_response_line` leaves: the bytes that it showed, the response, and an error.
pub record Heard : Type 0 where
  pub shown : Bytes
  pub response : Bytes
  pub failure : Option Text

abbrev pub is_full : Bytes → Bool
is_full response =
    leb max_monitor_response (length response) || Option.get_or (get_last? response) 0 == b'\n'

abbrev pub after_byte : ℕ → Heard → Heard
after_byte b heard = record heard { shown = b ∷ heard.shown }

abbrev pub heard_all : Bytes → Heard
heard_all response = record { shown = []; response = response; failure = none }

unfoldable pub read_monitor_response_line : List Turn → Bytes → Heard
unfolding monitor_error
read_monitor_response_line [] response = heard_all response
read_monitor_response_line (arrived b ∷ turns) response =
    let rest = read_monitor_response_line turns (response ++ b ∷ []) in
    if is_full response
    then heard_all response
    else after_byte b (
        if is_some (monitor_error (response ++ b ∷ []))
        then heard_all (response ++ b ∷ [])
        else rest)
read_monitor_response_line (quiet ∷ turns) response = heard_all response
read_monitor_response_line (interrupted ∷ turns) response =
    let rest = read_monitor_response_line turns response in
    if is_full response then heard_all response else rest
read_monitor_response_line (broken e ∷ turns) response =
    if is_full response
    then heard_all response
    else record (heard_all response) { failure = some e }

-- What `receive_echo` leaves: the bytes that it showed, and an error.
pub record Echo : Type 0 where
  pub shown : Bytes
  pub failure : Option IoError

abbrev pub echo_timeout : ℕ → ℕ → IoError
echo_timeout received expected = record {
  kind = timed_out;
  message = concat (
      codes "echo timeout after "
      ∷ decimal received
      ∷ codes " of "
      ∷ decimal expected
      ∷ codes " bytes"
      ∷ []);
}

abbrev pub rejection : Text → Bytes → IoError
rejection pattern response = record {
  kind = invalid_data;
  message = concat (
      codes "monitor rejected input (matched '"
      ∷ pattern
      ∷ codes "'): "
      ∷ trim (from_utf8_lossy response)
      ∷ []);
}

abbrev pub echo_mismatch : ℕ → ℕ → ℕ → IoError
echo_mismatch index sent received = record {
  kind = invalid_data;
  message = concat (
      codes "echo mismatch at byte "
      ∷ decimal (index + 1)
      ∷ codes ": sent 0x"
      ∷ hex 2 sent
      ∷ codes ", received 0x"
      ∷ hex 2 received
      ∷ []);
}

-- The error for a byte that is not the one expected, by what the monitor says.
abbrev pub refused_with : IoError → Heard → Option Text → IoError
refused_with mismatch heard none = mismatch
refused_with mismatch heard (some pattern) = rejection pattern heard.response

unfoldable pub refused : ℕ → ℕ → ℕ → Heard → IoError
unfolding monitor_error decimal hex trim from_utf8_lossy
refused index sent received heard = elim heard.failure [
  | some e ↦ record { kind = other; message = e }
  | none ↦ refused_with (echo_mismatch index sent received) heard (monitor_error heard.response)
]

abbrev pub also_shown : ℕ → Echo → Echo
also_shown b echo = record echo { shown = b ∷ echo.shown }

unfoldable pub echo_loop : Bool → Bytes → Bytes → List Turn → Echo
unfolding refused read_monitor_response_line decimal
echo_loop validate expected received [] =
    if leb (length expected) (length received)
    then record { shown = []; failure = none }
    else record { shown = []; failure = some (echo_timeout (length received) (length expected)) }
echo_loop validate expected received (turn ∷ turns) =
    if leb (length expected) (length received)
    then record { shown = []; failure = none }
    else elim turn [
      | quiet ↦ echo_loop validate expected received turns
      | interrupted ↦ echo_loop validate expected received turns
      | broken e ↦ record { shown = []; failure = some (record { kind = other; message = e }) }
      | arrived b ↦
          let index = length received in
          let heard = read_monitor_response_line turns (received ++ b ∷ []) in
          let rest = echo_loop validate expected (received ++ b ∷ []) turns in
          also_shown b (
            if validate && not (b == get_or expected index 0)
            then record {
              shown = heard.shown;
              failure = some (refused index (get_or expected index 0) b heard);
            }
            else rest)
    ]

-- `receive_echo`.
abbrev pub receive_echo : List Turn → Bytes → Bool → Echo
receive_echo turns expected validate = echo_loop validate expected [] turns
