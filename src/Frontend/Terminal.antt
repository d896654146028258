-- ===== src/Frontend/Terminal.antt =====
-- The plain terminal: `run` of tools/te-rs/src/main.rs, with one device and no panes. What is
-- written to the terminal and to the serial port is kept in order; a write that fails, which ends
-- the loop, and what goes to the error stream are left out.
pub mod Prompt
use sw_tos.Base.{
  ℕ, ◌+◌, ◌-◌, ◌%◌, ◌≤◌, List, [], ◌∷◌, ◌++◌, map, Option, none, some, Bool, true, false, not, ◌&&◌,
  ◌||◌, leb, ltb, ◌==◌, if◌then◌else◌, Bytes, Text, codes, length, drop, bytes_eq, from_utf8_lossy,
}
use sw_tos.Format.{contains, trim}
use sw_tos.Frontend.Requests.{
  TimeMode, time_frame, multiplexed_time_frame, multiplexed_input_frame, is_numeric_menu_choice,
}
use sw_tos.Frontend.Monitor.{lowercase}
use sw_tos.Protocol.Connection.{StreamItem, plain, frame, error, ConnectionDecoder}
use sw_tos.Protocol.Connection
use sw_tos.Protocol.Negotiator.{Mode}
use sw_tos.Protocol.{FrameType}

pub record Terminal : Type 0 where
  pub connection : ConnectionDecoder
  pub time_mode : Option TimeMode
  pub next_frame : ℕ
  pub menu_prompt : Bool
  pub prompt_tail : Bytes
  pub input_line : Bytes
  pub discard_newline : Bool
  pub tty : Bytes
  pub serial : Bytes

-- `echo_swtos_key`.
unfoldable pub echo_swtos_key : ℕ → Bytes
echo_swtos_key byte =
    if byte == 13 || byte == 10
    then 13 ∷ 10 ∷ []
    else if byte == 0x1b || byte == 0x1d
    then codes "Escape" ++ 13 ∷ 10 ∷ []
    else if byte == 8 || byte == 0x7f
    then 8 ∷ 32 ∷ 8 ∷ []
    else if leb 0x20 byte && leb byte 0x7e
    then byte ∷ []
    else []

abbrev pub choice : Bytes
choice = codes "Choice: "

-- The bytes for the terminal in what the connection reads.
abbrev pub item_bytes : StreamItem → Bytes
item_bytes (plain bytes) = bytes
item_bytes (frame f) = elim f.kind [ FrameType.tty_output ↦ f.payload | _ ↦ [] ]
item_bytes (error e) = []

unfoldable pub terminal_bytes : List StreamItem → Bytes
terminal_bytes [] = []
terminal_bytes (item ∷ items) = item_bytes item ++ terminal_bytes items

-- What is kept of the output for the next look.
abbrev pub kept : Bytes → Bytes
kept tail = drop (length tail - (length choice - 1)) tail

unfoldable pub watch_prompt : Bytes → Terminal → Terminal
unfolding contains
watch_prompt bytes t =
    let tail = t.prompt_tail ++ bytes in
    if contains tail choice
    then record t { prompt_tail = kept tail; menu_prompt = true; time_mode = none }
    else record t { prompt_tail = kept tail }

abbrev pub show_output : Bool → Bytes → Terminal → Terminal
show_output swtos bytes t =
    let shown = record t { tty = t.tty ++ bytes } in
    if swtos then watch_prompt bytes shown else shown

-- A read of the serial port that is not empty.
unfoldable pub serial_read : (framed swtos : Bool) → Bytes → Terminal → Terminal
unfolding watch_prompt terminal_bytes Connection.push
serial_read true swtos bytes t =
    let (connection, items) = Connection.push t.connection bytes in
    show_output swtos (terminal_bytes items) (record t { connection = connection })
serial_read false swtos bytes t = show_output swtos bytes t

abbrev pub is_framed : Bool → Terminal → Bool
is_framed framed t = elim t.connection.mode [ Mode.framed ↦ framed | Mode.plain ↦ false ]

-- What is sent, in a frame or as it is; `none` is a panic of the encoding.
abbrev pub put_serial : Option Bytes → Terminal → Option Terminal
put_serial none t = none
put_serial (some bytes) t = some (record t { serial = t.serial ++ bytes })

abbrev pub send_key : Bool → ℕ → Terminal → Option Terminal
send_key framed byte t =
    put_serial
      (if is_framed framed t then multiplexed_input_frame 0 (byte ∷ []) else some (byte ∷ [])) t

-- The mode that a choice of the menu, or a command, starts, from now on.
abbrev pub start : Option TimeMode → ℕ → Terminal → Terminal
start none now t = record t { time_mode = none }
start (some mode) now t = record t { time_mode = some mode; next_frame = now }

abbrev pub choice_mode : ℕ → Option TimeMode
choice_mode outgoing =
    if outgoing == b'3'
    then some TimeMode.uptime
    else if outgoing == b'4'
    then some TimeMode.clock
    else none

unfoldable pub command_mode : Bytes → Option TimeMode
unfolding trim from_utf8_lossy bytes_eq
command_mode line =
    let command = map lowercase (trim (from_utf8_lossy line)) in
    if bytes_eq command (codes "run uptime")
    then some TimeMode.uptime
    else if bytes_eq command (codes "run clock")
    then some TimeMode.clock
    else none

abbrev pub is_empty : Bytes → Bool
is_empty [] = true
is_empty (b ∷ bs) = false

unfoldable pub menu_key : ℕ → ℕ → Terminal → Terminal
unfolding command_mode
menu_key now outgoing t =
    if is_numeric_menu_choice outgoing && is_empty t.input_line
    then record (start (choice_mode outgoing) now t) {
      input_line = [];
      discard_newline = true;
      menu_prompt = false;
    }
    else if outgoing == 10
    then record (start (command_mode t.input_line) now t) { input_line = []; menu_prompt = false }
    else record t { input_line = t.input_line ++ outgoing ∷ [] }

abbrev is_running : Option TimeMode → Bool
is_running none = false
is_running (some mode) = true

-- How a key, and a pass of the loop, ends: the loop goes on, returns, finds that the serial device is
-- gone, or panics.
pub data Outcome : Type 0 where
  goes : Terminal → Outcome
  returns : Terminal → Outcome
  disconnected : Outcome
  panics : Outcome

abbrev pub goes_if : Option Terminal → Outcome
goes_if none = panics
goes_if (some t) = goes t

abbrev pub then_goes : Outcome → (Terminal → Outcome) → Outcome
then_goes (goes t) next = next t
then_goes (returns t) next = returns t
then_goes disconnected next = disconnected
then_goes panics next = panics

-- Two of the options, the time, and the transfer of a file: `prompt_for_file` and `upload`, with what
-- follows of them. The transfer reads the terminal and the serial port itself.
module _ (framed swtos : Bool) (transfer : Terminal → Outcome) where
  abbrev pub outgoing_key : ℕ → ℕ
  outgoing_key byte = if swtos && byte == 13 then 10 else byte

  abbrev pub after_key : ℕ → ℕ → Terminal → Outcome
  after_key now outgoing t =
      if swtos && t.menu_prompt then goes (menu_key now outgoing t) else goes t

  abbrev pub typed_key : ℕ → ℕ → Terminal → Outcome
  typed_key now byte t =
      if swtos && is_running t.time_mode && (byte == 0x1b || byte == 0x1d)
      then then_goes (goes_if (send_key framed 0x1b t)) (λ u. goes (record u { time_mode = none }))
      else then_goes (goes_if (send_key framed (outgoing_key byte) t))
          (after_key now (outgoing_key byte))

  unfoldable pub key : ℕ → ℕ → Terminal → Outcome
  unfolding echo_swtos_key menu_key
  key now byte t =
      if swtos && t.discard_newline && (byte == 13 || byte == 10)
      then goes (record t { discard_newline = false })
      else if byte == 0x03
      then returns t
      else if byte == 0x12
      then transfer t
      else typed_key now byte (if swtos then record t { tty = t.tty ++ echo_swtos_key byte } else t)

  -- A read of the terminal; one of no bytes ends the loop.
  unfoldable pub keys : ℕ → Bytes → Terminal → Outcome
  unfolding key
  keys now [] t = goes t
  keys now (byte ∷ bytes) t = then_goes (key now byte t) (keys now bytes)

  abbrev pub tty_read : ℕ → Bytes → Terminal → Outcome
  tty_read now [] t = returns t
  tty_read now (byte ∷ bytes) t = keys now (byte ∷ bytes) t

  -- The time, once a second while a program wants it; the tick of each mode is a `u32`.
  abbrev pub frame_of : (TimeMode → ℕ) → TimeMode → Terminal → Option Bytes
  frame_of tick mode t =
      if is_framed framed t
      then multiplexed_time_frame mode (tick mode % 0x1000000)
      else some (time_frame mode (tick mode % 0x1000000))

  abbrev pub time_due : ℕ → (TimeMode → ℕ) → Option TimeMode → Terminal → Outcome
  time_due now tick none t = goes t
  time_due now tick (some mode) t =
      if leb t.next_frame now
      then then_goes (goes_if (put_serial (frame_of tick mode t) t))
          (λ u. goes (record u { next_frame = now + 1000 }))
      else goes t

  unfoldable pub send_time : ℕ → (TimeMode → ℕ) → Terminal → Outcome
  unfolding time_frame
  send_time now tick t = time_due now tick t.time_mode t

  -- What a pass of the loop finds: a read of the serial port, and one of the terminal.
  abbrev pub read_serial : Option Bytes → Terminal → Outcome
  read_serial none t = goes t
  read_serial (some []) t = disconnected
  read_serial (some (byte ∷ bytes)) t = goes (serial_read framed swtos (byte ∷ bytes) t)

  abbrev pub read_tty : ℕ → Option Bytes → Terminal → Outcome
  read_tty now none t = goes t
  read_tty now (some bytes) t = tty_read now bytes t

  unfoldable pub pass : ℕ → (TimeMode → ℕ) → Option Bytes → Option Bytes → Terminal → Outcome
  unfolding serial_read keys send_time
  pass now tick from_serial from_tty t =
      then_goes (read_serial from_serial t)
        (λ u. then_goes (read_tty now from_tty u) (send_time now tick))
