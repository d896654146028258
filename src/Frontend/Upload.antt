-- ===== src/Frontend/Upload.antt =====
-- The upload of a file to the monitor, in tools/te-rs/src/main.rs: the lines that are sent, and the
-- prompt for the name of the file. The system's writes are `put`; the delays and what `--verbose`
-- prints are left out.
pub mod Sent
use mathlib.Core.Option
use sw_tos.Base.{
  ℕ, suc, ◌+◌, ◌-◌, List, [], ◌∷◌, ◌++◌, map, concat, Option, none, some, Bool, true, false, not,
  ◌&&◌, ◌||◌, leb, ltb, ◌==◌, if◌then◌else◌, Bytes, Text, codes, length, get_or, get_last?,
  from_utf8_lossy, Result, ok, err,
}
use sw_tos.Format.{decimal, hex, contains, trim}
use sw_tos.Frontend.Monitor.{
  max_monitor_response, monitor_error_patterns, lowercase, first_contained, monitor_error, Turn,
  ErrorKind, IoError, Heard, is_full, after_byte, heard_all, read_monitor_response_line, Echo,
  echo_timeout, rejection, echo_mismatch, refused_with, refused, also_shown, echo_loop,
  receive_echo, arrived, quiet, interrupted, broken, timed_out, invalid_data, other,
}

-- `read_until(b'\n')` again and again: the lines of a file, each with its newline.
abbrev pub add_first : ℕ → List Bytes → List Bytes
add_first b [] = (b ∷ []) ∷ []
add_first b (line ∷ lines) = (b ∷ line) ∷ lines

unfoldable pub lines_of : Bytes → List Bytes
lines_of [] = []
lines_of (b ∷ bs) =
    let rest = lines_of bs in if b == b'\n' then (b ∷ []) ∷ rest else add_first b rest

module _ {W : Type 0} (put : W → Bytes → W × Option Text) where
  -- `?` after a write.
  abbrev pub sent_then : {B : Type 0} → (Text → B) → W × Option Text → (W → W × B) → W × B
  sent_then fail (w, none) next = next w
  sent_then fail (w, some e) next = (w, fail e)

  -- A line is written byte by byte, or at once.
  unfoldable pub put_bytes : W → Bytes → W × Option Text
  put_bytes w [] = (w, none)
  put_bytes w (b ∷ bs) = sent_then some (put w (b ∷ [])) (λ w'. put_bytes w' bs)

  abbrev pub send_line : Bool → W → Bytes → W × Option Text
  send_line byte_delay w line = if byte_delay then put_bytes w line else put w line

  -- The turns of the echo of the next line; none are left when the list ends.
  abbrev pub next_turns : List (List Turn) → List Turn
  next_turns [] = []
  next_turns (turns ∷ more) = turns

  abbrev pub later_turns : List (List Turn) → List (List Turn)
  later_turns [] = []
  later_turns (turns ∷ more) = more

  abbrev pub at_line : ℕ → IoError → IoError
  at_line n e = record e {
    message = concat (codes "line " ∷ decimal n ∷ codes ": " ∷ e.message ∷ []);
  }

  abbrev pub write_failed : Text → Result ℕ IoError
  write_failed e = err (record { kind = other; message = e })

  -- What follows the echo of a line.
  abbrev pub after_echo : ℕ → Option IoError → W → W × Result ℕ IoError → W × Result ℕ IoError
  after_echo n none w rest = rest
  after_echo n (some e) w rest = (w, err (at_line n e))

  -- `upload`, of a file that was read; the result is the number of lines.
  unfoldable pub upload_lines :
      (byte_delay sync : Bool) → W → ℕ → List Bytes → List (List Turn) → W × Result ℕ IoError
  unfolding echo_loop put_bytes decimal
  upload_lines byte_delay sync w n [] answers = (w, ok n)
  upload_lines byte_delay sync w n (line ∷ lines) answers =
      sent_then write_failed (send_line byte_delay w line) (λ w'.
        after_echo (suc n) (receive_echo (next_turns answers) line sync).failure w'
          (upload_lines byte_delay sync w' (suc n) lines (later_turns answers)))

  unfoldable pub upload :
      (byte_delay sync : Bool) → W → Bytes → List (List Turn) → W × Result ℕ IoError
  unfolding upload_lines lines_of
  upload byte_delay sync w file answers = upload_lines byte_delay sync w 0 (lines_of file) answers

-- What `prompt_for_file` leaves: the bytes that it shows, and its answer; no answer when the terminal
-- cannot be read further, and none of a name when the user gives up.
pub record Prompted : Type 0 where
  pub shown : Bytes
  pub answer : Option (Option Text)

abbrev pub and_shows : Bytes → Prompted → Prompted
and_shows bytes p = record p { shown = bytes ++ p.shown }

abbrev pub erased : Bytes → Bytes
erased [] = []
erased (b ∷ []) = []
erased (b ∷ c ∷ cs) = b ∷ erased (c ∷ cs)

unfoldable pub prompt_loop : Bytes → Bytes → Prompted
unfolding from_utf8_lossy
prompt_loop name [] = record { shown = []; answer = none }
prompt_loop name (byte ∷ bytes) =
    let shorter = prompt_loop (erased name) bytes in
    let same = prompt_loop name bytes in
    let longer = prompt_loop (name ++ byte ∷ []) bytes in
    if byte == 13 || byte == 10
    then record { shown = 13 ∷ 10 ∷ []; answer = some (some (from_utf8_lossy name)) }
    else if byte == 3
    then record { shown = []; answer = some none }
    else if byte == 8 || byte == 0x7f
    then (if length name == 0 then same else and_shows (8 ∷ 32 ∷ 8 ∷ []) shorter)
    else and_shows (byte ∷ []) longer

unfoldable pub prompt_for_file : Bytes → Prompted
unfolding prompt_loop
prompt_for_file bytes = and_shows (13 ∷ 10 ∷ codes "file: ") (prompt_loop [] bytes)
