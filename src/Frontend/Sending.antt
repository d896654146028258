-- ===== src/Frontend/Sending.antt =====
-- What `run_windows` in tools/te-rs/src/main.rs puts into its serial queue, and the lines of its
-- own that it shows in the debugger's pane.
pub mod Bounds
use sw_tos.Base.{ℕ, List, [], ◌∷◌, Option, none, some, Bytes, Text}
use sw_tos.Format.{as_bytes}
use sw_tos.Frontend.Requests.{queue_serial, multiplexed_input_frame}
use sw_tos.Frontend.Session.{Session}
use sw_tos.Ui.Desktop.Channels.{push_channel}
use sw_tos.Ui.Desktop.{Desktop}

-- `queue_serial(&mut serial_output, bytes)`, whose result the loop does not read.
unfoldable pub send : Bytes → Session → Session
unfolding queue_serial
send bytes s = record s { serial_output = (queue_serial s.serial_output bytes).0 }

-- Of a frame that is encoded.
unfoldable pub send_encoded : Option Bytes → Session → Option Session
unfolding send
send_encoded none s = none
send_encoded (some bytes) s = some (send bytes s)

-- A step after another.
abbrev pub then_do : Option Session → (Session → Option Session) → Option Session
then_do none next = none
then_do (some s) next = next s

unfoldable pub send_each : Bytes → List ℕ → Session → Option Session
unfolding send_encoded
send_each payload [] s = some s
send_each payload (channel ∷ channels) s =
    then_do (send_encoded (multiplexed_input_frame channel payload) s) (send_each payload channels)

-- A note in the debugger's pane.
unfoldable pub note : Text → Desktop → Desktop
unfolding push_channel as_bytes
note text d = push_channel 254 (as_bytes text) d
