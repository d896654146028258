-- ===== src/Frontend/Requests.antt =====
-- What the frontend sends: the time, the keys, the requests, the heartbeat, and the queue in
-- front of the serial port.
pub mod Delivery
use sw_tos.Base.{
  ℕ, ◌+◌, ◌*◌, ◌%◌, ◌/◌, List, [], ◌∷◌, ◌++◌, Option, none, some, Bool, true, false, ◌&&◌, ◌||◌,
  ltb, leb, ◌==◌, if◌then◌else◌, Bytes, Text, codes, Result, ok, err, length, starts_with,
}
use sw_tos.Protocol.Negotiator.{Mode}
use sw_tos.Protocol.{version, FrameType, Frame, checksum, encode}
use sw_tos.Resource.{SnapshotAssembler, has_process_named}

pub data TimeMode : Type 0 where
  uptime clock : TimeMode

pub record TimeModes : Type 0 where
  pub uptime_active : Bool
  pub clock_active : Bool

abbrev pub any : TimeModes → Bool
any modes = modes.uptime_active || modes.clock_active

unfoldable pub active : TimeModes → List TimeMode
active modes =
    let clocks : List TimeMode = if modes.clock_active then clock ∷ [] else [] in
    if modes.uptime_active then uptime ∷ clocks else clocks

unfoldable pub time_mode_for_title : Text → Option TimeMode
unfolding starts_with
time_mode_for_title title =
    if starts_with title (codes "mon") || starts_with title (codes "upti")
    then some uptime
    else if starts_with title (codes "cloc")
    then some clock
    else none

abbrev pub is_uptime : TimeMode → Bool
is_uptime uptime = true
is_uptime clock = false

-- `channel_modes.values().any(|mode| *mode == …)`: the map's values, and the test.
unfoldable pub any_mode : (TimeMode → Bool) → List (ℕ × TimeMode) → Bool
any_mode test [] = false
any_mode test ((channel, mode) ∷ rest) = test mode || any_mode test rest

abbrev pub is_clock : TimeMode → Bool
is_clock uptime = false
is_clock clock = true

unfoldable pub active_time_modes : SnapshotAssembler → List (ℕ × TimeMode) → TimeModes
unfolding has_process_named any_mode
active_time_modes a channel_modes = record {
  uptime_active =
      has_process_named a (codes "upti")
      || has_process_named a (codes "mon")
      || any_mode is_uptime channel_modes;
  clock_active = has_process_named a (codes "cloc") || any_mode is_clock channel_modes;
}

abbrev pub max_windows_serial_backlog : ℕ
max_windows_serial_backlog = 64 * 1024

-- `queue_serial`: the queue after it, and its result.
unfoldable pub queue_serial : Bytes → Bytes → Bytes × Bool
queue_serial output bytes =
    if ltb max_windows_serial_backlog (length output + length bytes)
    then (output, false)
    else (output ++ bytes, true)

-- The three low bytes of a tick, which is a `u32`.
abbrev pub tick_bytes : ℕ → Bytes
tick_bytes tick = (tick % 256) ∷ (tick / 256 % 256) ∷ (tick / 65536 % 256) ∷ []

-- The loop of `time_frame`.
unfoldable pub escaped : Bytes → Bytes
escaped [] = []
escaped (byte ∷ bytes) =
    let rest = escaped bytes in
    if byte == 0xff then 0xff ∷ 0 ∷ rest else if byte == 0x1d then 0xff ∷ 3 ∷ rest else byte ∷ rest

unfoldable pub time_frame : TimeMode → ℕ → Bytes
unfolding escaped
time_frame mode tick = 0xff ∷ (if is_uptime mode then 1 else 2) ∷ escaped (tick_bytes tick)

abbrev pub shell_restart : Bytes
shell_restart = 0xff ∷ 4 ∷ []

abbrev pub system_reboot : Bytes
system_reboot = 0xff ∷ 5 ∷ []

abbrev pub passthrough : ℕ
passthrough = 0xfe

unfoldable pub passthrough_frame : Bytes → Bytes
unfolding checksum
passthrough_frame payload =
    let size = length payload % 65536 in
    let bytes = (version ∷ passthrough ∷ 0 ∷ (size % 256) ∷ (size / 256 % 256) ∷ []) ++ payload in
    0xa5 ∷ 0x5a ∷ (bytes ++ checksum bytes ∷ [])

unfoldable pub shell_restart_request : Mode → Bytes
unfolding passthrough_frame
shell_restart_request Mode.framed = passthrough_frame shell_restart
shell_restart_request Mode.plain = shell_restart

unfoldable pub system_reboot_request : Mode → Bytes
unfolding passthrough_frame
system_reboot_request Mode.framed = passthrough_frame system_reboot
system_reboot_request Mode.plain = system_reboot

abbrev pub scheduler_heartbeat : ℕ → Bytes
scheduler_heartbeat tick = 0xff ∷ 1 ∷ tick_bytes tick

-- `encode().expect(…)`: `none` is the panic.
unfoldable pub expect_encoded : Frame → Option Bytes
unfolding encode
expect_encoded f = elim (encode f) [ ok bytes ↦ some bytes | err error ↦ none ]

abbrev pub time_kind : TimeMode → FrameType
time_kind uptime = FrameType.uptime
time_kind clock = FrameType.wall_clock

abbrev pub multiplexed_time_frame : TimeMode → ℕ → Option Bytes
multiplexed_time_frame mode tick =
    expect_encoded (record { kind = time_kind mode; channel = 0; payload = tick_bytes tick })

abbrev pub multiplexed_input_frame : ℕ → Bytes → Option Bytes
multiplexed_input_frame channel payload =
    expect_encoded (record { kind = FrameType.tty_input; channel = channel; payload = payload })

abbrev pub resource_request_frame : Option Bytes
resource_request_frame =
    expect_encoded (record { kind = FrameType.resource_snapshot; channel = 0; payload = [] })

abbrev pub debug_request_frame : Bytes → Option Bytes
debug_request_frame payload =
    expect_encoded (record { kind = FrameType.debug_request; channel = 0; payload = payload })

-- `is_numeric_menu_choice`, and `parse_prefix` on the bytes of its argument.
abbrev pub is_numeric_menu_choice : ℕ → Bool
is_numeric_menu_choice byte = leb b'1' byte && leb byte b'5'

unfoldable pub parse_prefix : Bytes → Option ℕ
parse_prefix (byte ∷ []) = some byte
parse_prefix (caret ∷ letter ∷ []) =
    if caret == b'^' && (leb b'@' letter && leb letter b'_') then some (letter % 32) else none
parse_prefix other = none
