-- ===== src/Frontend/Timers.antt =====
-- The end of a pass of the loop of `run_windows` in tools/te-rs/src/main.rs: what is due is put
-- into the serial queue. `none` is a panic.
pub mod Delivered
pub mod Queued
pub mod Typed
use mathlib.Core.Option
use sw_tos.Base.{
  ℕ, ◌+◌, ◌*◌, ◌/◌, ◌%◌, List, [], ◌∷◌, Option, none, some, Bool, true, false, not, ◌&&◌, leb, ltb,
  if◌then◌else◌, Bytes, codes, length,
}
use sw_tos.Debugger.{identity_request}
use sw_tos.Frontend.Requests.{
  TimeMode, uptime, clock, any, active, max_windows_serial_backlog, scheduler_heartbeat,
  multiplexed_time_frame, multiplexed_input_frame, resource_request_frame, debug_request_frame,
  expect_encoded,
}
use sw_tos.Frontend.Sending.{send, send_encoded, then_do}
use sw_tos.Frontend.Session.{Session, debugger_prompt}
use sw_tos.Protocol.Negotiator.{Mode, hello}
use sw_tos.Ui.Desktop.Search.{set_error}

-- What the pass reads of the clocks: the instant, the milliseconds since the connection, and
-- `wall_centiseconds()`.
pub record Clocks : Type 0 where
  pub now : ℕ
  pub elapsed : ℕ
  pub wall : ℕ

abbrev pub is_framed : Mode → Bool
is_framed Mode.framed = true
is_framed Mode.plain = false

abbrev low_24 : ℕ → ℕ
low_24 n = n % 0x1000000

abbrev uptime_tick : Clocks → ℕ
uptime_tick c = low_24 (c.elapsed % 0x100000000 / 10)

unfoldable pub prompt_due : Clocks → Session → Session
unfolding debugger_prompt
prompt_due c s = elim s.debugger_prompt_due [
  | none ↦ s
  | some due ↦
      if leb due c.now
      then record s { desktop = debugger_prompt s.desktop; debugger_prompt_due = none }
      else s
]

unfoldable pub request_resources : Clocks → Session → Option Session
unfolding send_encoded
request_resources c s =
    if is_framed s.connection.mode && leb s.next_resource_request c.now
    then Option.map (λ (t : Session). record t { next_resource_request = c.now + 250 })
        (send_encoded resource_request_frame s)
    else some s

abbrev next_beat : ℕ → ℕ → ℕ
next_beat now next = if ltb next now then now + 10 else next

unfoldable pub beat : Clocks → Session → Session
unfolding send
beat c s =
    if leb s.next_scheduler_heartbeat c.now
    then record (send (scheduler_heartbeat (uptime_tick c)) s) {
      next_scheduler_heartbeat = next_beat c.now (s.next_scheduler_heartbeat + 10);
    }
    else s

unfoldable pub retry_hello : Clocks → Session → Option Session
unfolding send_encoded expect_encoded
retry_hello c s =
    if not (is_framed s.connection.mode) && leb s.next_hello_retry c.now
    then Option.map (λ (t : Session). record t { next_hello_retry = c.now + 250 })
        (send_encoded (expect_encoded hello) s)
    else some s

abbrev tick_of : Clocks → TimeMode → ℕ
tick_of c uptime = uptime_tick c
tick_of c clock = low_24 c.wall

unfoldable pub send_times : Clocks → List TimeMode → Session → Option Session
unfolding send_encoded
send_times c [] s = some s
send_times c (mode ∷ modes) s =
    then_do (send_encoded (multiplexed_time_frame mode (tick_of c mode)) s) (send_times c modes)

unfoldable pub time_frames : Clocks → Session → Option Session
unfolding send_times active
time_frames c s =
    if is_framed s.connection.mode && (any s.time_modes && leb s.next_time_frames c.now)
    then Option.map (λ (t : Session). record t { next_time_frames = c.now + 1000 })
        (send_times c (active s.time_modes) s)
    else some s

-- One character of what is typed on the shell's behalf.
abbrev pub inject_from : Bytes → Session → Option Session
inject_from [] s = some s
inject_from (byte ∷ bytes) s =
    if is_framed s.connection.mode
    then send_encoded (multiplexed_input_frame 0 (byte ∷ [])) (record s { injected = bytes })
    else some s

unfoldable pub inject : Session → Option Session
unfolding send_encoded
inject s = inject_from s.injected s

unfoldable pub send_identity : Session → Option Session
unfolding send_encoded
send_identity s =
    if is_framed s.connection.mode && not s.debug_identity_sent
    then Option.map (λ (t : Session). record t { debug_identity_sent = true })
        (send_encoded (debug_request_frame identity_request) s)
    else some s

unfoldable pub report_stall : Session → Session
report_stall s =
    if leb (max_windows_serial_backlog * 3 / 4) (length s.serial_output)
    then record s {
      desktop =
          set_error (some (codes "serial output stalled; the detach key remains available"))
            s.desktop;
    }
    else s

-- The pass, in the order of the code.
unfoldable pub pass : Clocks → Session → Option Session
unfolding prompt_due request_resources beat retry_hello time_frames inject send_identity
    report_stall
pass c s = then_do (request_resources c (prompt_due c s)) (λ a.
    then_do (retry_hello c (beat c a)) (λ b.
      then_do (time_frames c b)
        (λ d. then_do (inject d) (λ e. Option.map report_stall (send_identity e)))))

-- Passes in a row.
unfoldable pub passes : List Clocks → Session → Option Session
unfolding pass
passes [] s = some s
passes (c ∷ cs) s = then_do (pass c s) (passes cs)
