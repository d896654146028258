-- ===== src/Adapter/Emulator.antt =====
-- What the adapter of tools/cor24-debug-adapter/src/main.rs does with the frames that it receives.
-- The crate `cor24_emulator` is a parameter, the record `Emulator` of the functions that are
-- called of it, and so is `write_all_retrying` on the pseudo-terminal, as `put`.
pub mod Answers
pub mod Faithful
pub mod Frames
pub mod Transparent
use sw_tos.Adapter.{raw_uart, Frame, encoded_frame, put24, u24, target_frame}
use sw_tos.Adapter.Decoder.{Decoder}
use sw_tos.Adapter.Decoder
use sw_tos.Base.{
  ℕ, ◌+◌, ◌*◌, ◌%◌, min, List, [], ◌∷◌, ◌++◌, Option, none, some, Bool, true, false, not, ◌&&◌,
  ◌||◌, ltb, leb, ◌==◌, if◌then◌else◌, Bytes, Text, codes, bytes_eq, length, drop,
}

-- The crate's `StopReason`, without the addresses that the adapter does not read.
pub data StopReason : Type 0 where
  breakpoint paused cycle_limit halted : StopReason
  invalid_instruction stack_overflow stack_underflow : StopReason

-- What the adapter reads of the crate's snapshot of the processor.
pub record Snapshot : Type 0 where
  pub regs : ℕ → ℕ
  pub pc : ℕ
  pub c : Bool
  pub halted : Bool

-- An entry of the log of the UART: is it output, and its byte.
pub record UartEntry : Type 0 where
  pub is_output : Bool
  pub byte : ℕ

pub record Emulator (E : Type 0) : Type 0 where
  pub pause : E → E
  pub resume : E → E
  pub is_running : E → Bool
  pub run_batch : ℕ → E → E × StopReason
  pub step : E → E × StopReason
  pub step_over : E → E × StopReason
  pub send_uart_byte : ℕ → E → E
  pub uart_log : E → List UartEntry
  pub clear_uart_output : E → E
  pub pc : E → ℕ
  pub snapshot : E → Snapshot
  pub read_memory : E → ℕ → ℕ → Bytes
  pub read_word : E → ℕ → ℕ
  pub breakpoints : E → List ℕ
  pub add_breakpoint : ℕ → E → E
  pub remove_breakpoint : ℕ → E → E

-- How a step ends: the program goes on, has ended, returns an error, or panics.
pub data Outcome : Type 0 where
  going ended panicked : Outcome
  failed : Text → Outcome

abbrev pub target_byte_cycles : ℕ
target_byte_cycles = 500000

abbrev pub heartbeat_byte_cycles : ℕ
heartbeat_byte_cycles = 20000

abbrev pub is_cycle_limit : StopReason → Bool
is_cycle_limit cycle_limit = true
is_cycle_limit _ = false

abbrev pub stop_code : StopReason → ℕ
stop_code breakpoint = 1
stop_code paused = 2
stop_code cycle_limit = 3
stop_code halted = 4
stop_code invalid_instruction = 5
stop_code stack_overflow = 6
stop_code stack_underflow = 7

-- `put24` on each value of a list.
unfoldable pub put24_each : Bytes → List ℕ → Bytes
unfolding put24
put24_each out [] = out
put24_each out (value ∷ values) = put24_each (put24 out value) values

-- The bytes that the log has from an index on, in the direction of the terminal.
unfoldable pub output_bytes : List UartEntry → Bytes
output_bytes [] = []
output_bytes (entry ∷ entries) =
    let rest = output_bytes entries in if entry.is_output then entry.byte ∷ rest else rest

-- The registers of the processor, in two answers.
abbrev pub flags : Snapshot → ℕ
flags snap = (if snap.c then 1 else 0) + (if snap.halted then 2 else 0)

unfoldable pub first_registers : ℕ → Snapshot → Bytes
unfolding put24_each
first_registers endpoint snap =
    put24_each (2 ∷ endpoint ∷ 0 ∷ []) (snap.regs 0 ∷ snap.regs 1 ∷ snap.regs 2 ∷ snap.regs 4 ∷ [])

unfoldable pub second_registers : ℕ → Snapshot → Bytes
unfolding put24_each
second_registers endpoint snap = put24_each (2 ∷ endpoint ∷ 1 ∷ []) (snap.pc ∷ flags snap ∷ [])

abbrev pub offsets : List ℕ
offsets = 0 ∷ 1 ∷ 2 ∷ 3 ∷ 4 ∷ 5 ∷ 6 ∷ 7 ∷ []

module _ {E : Type 0} (emu : Emulator E) where
  unfoldable pub stop_payload : E → StopReason → Bytes
  unfolding put24
  stop_payload e reason = put24 (4 ∷ stop_code reason ∷ []) (emu.pc e)

  unfoldable pub breakpoint_payload : E → Bytes
  unfolding put24_each
  breakpoint_payload e =
      put24_each (8 ∷ min (length (emu.breakpoints e)) 255 ∷ []) (emu.breakpoints e)

  -- `[11]`: the words below the frame pointer; a `u32` wraps.
  unfoldable pub frame_words : E → ℕ → List ℕ → List ℕ
  frame_words e base [] = []
  frame_words e base (offset ∷ offsets) =
      emu.read_word e ((base + offset * 3) % 0x100000000) ∷ frame_words e base offsets

  unfoldable pub backtrace_payload : E → Bytes
  unfolding put24_each frame_words
  backtrace_payload e =
      let snap = emu.snapshot e in
      put24_each (11 ∷ [])
        ((snap.pc ∷ snap.regs 3 ∷ snap.regs 4 ∷ []) ++ frame_words e (snap.regs 3) offsets)

  unfoldable pub memory_payload : E → ℕ → ℕ → ℕ → ℕ → Bytes
  unfolding u24
  memory_payload e a0 a1 a2 size = 3 ∷ a0 ∷ a1 ∷ a2 ∷ emu.read_memory e (u24 a0 a1 a2) (min size 64)

  -- A byte of `feed_uart_bytes`.
  abbrev pub fed : ℕ → ℕ → E → E × StopReason
  fed cycles byte e = emu.run_batch cycles (emu.resume (emu.send_uart_byte byte e))

module _ {E W : Type 0} (emu : Emulator E) (put : W → Bytes → W × Option Text) where
  pub record Adapter : Type 0 where
    pub emulator : E
    pub io : W
    pub uart_log_seen : ℕ

  abbrev pub Step : Type 0
  Step = Adapter × Outcome

  -- `?`: the next step, if this one goes on.
  abbrev pub and_then : Step → (Adapter → Step) → Step
  and_then (a, going) next = next a
  and_then (a, ended) next = (a, ended)
  and_then (a, panicked) next = (a, panicked)
  and_then (a, failed e) next = (a, failed e)

  abbrev pub put_result : Option Text → Outcome
  put_result none = going
  put_result (some e) = failed e

  abbrev pub write_bytes : Bytes → Adapter → Step
  write_bytes bytes a = (record a { io = (put a.io bytes).0 }, put_result (put a.io bytes).1)

  -- `write_debug`.
  unfoldable pub write_debug : Bytes → Adapter → Step
  unfolding encoded_frame
  write_debug payload = write_bytes (encoded_frame 10 0 payload)

  -- `flush_uart`; the slice of the log panics out of range.
  abbrev pub flushed : Bytes → Adapter → Step
  flushed [] a = (a, going)
  flushed (b ∷ bs) a =
      and_then (write_bytes (b ∷ bs) a)
        (λ t. (record t { emulator = emu.clear_uart_output t.emulator }, going))

  unfoldable pub flush_uart : Adapter → Step
  unfolding output_bytes
  flush_uart a =
      let entries = emu.uart_log a.emulator in
      if leb a.uart_log_seen (length entries)
      then flushed (output_bytes (drop a.uart_log_seen entries))
          (record a { uart_log_seen = length entries })
      else (a, panicked)

  -- A stop other than the end of the cycles is reported.
  abbrev pub report : StopReason → Adapter → Step
  report reason a =
      if is_cycle_limit reason
      then (a, going)
      else write_debug (stop_payload emu a.emulator reason) a

  -- `feed_uart_bytes`.
  unfoldable pub feed_uart_bytes : ℕ → Bytes → Adapter → Step
  unfolding flush_uart write_debug stop_payload
  feed_uart_bytes cycles [] a = flush_uart a
  feed_uart_bytes cycles (byte ∷ bytes) a =
      let (e, reason) = fed emu cycles byte a.emulator in
      and_then (report reason (record a { emulator = e })) (feed_uart_bytes cycles bytes)

  unfoldable pub feed_target_frame : Frame → Adapter → Step
  unfolding feed_uart_bytes encoded_frame
  feed_target_frame f =
      feed_uart_bytes target_byte_cycles (encoded_frame f.kind f.channel f.payload)

  -- A change of the emulator and an answer.
  abbrev pub answer : E → Bytes → Adapter → Step
  answer e payload a = write_debug payload (record a { emulator = e })

  abbrev pub stepped : E × StopReason → Adapter → Step
  stepped (e, reason) a = answer e (stop_payload emu e reason) a

  unfoldable pub unknown_request : Adapter → Step
  unfolding write_debug
  unknown_request = write_debug (0xff ∷ 1 ∷ [])

  -- The requests that the adapter answers itself, whether the emulator runs or not.
  unfoldable pub request_1 : ℕ → Adapter → Step
  unfolding write_debug stop_payload breakpoint_payload backtrace_payload unknown_request
  request_1 code a =
      let e = a.emulator in
      if code == 4
      then answer (emu.pause e) (stop_payload emu (emu.pause e) paused) a
      else if code == 5
      then answer (emu.resume e) (stop_payload emu (emu.resume e) cycle_limit) a
      else if code == 8
      then answer e (breakpoint_payload emu e) a
      else if code == 9
      then stepped (emu.step e) a
      else if code == 10
      then stepped (emu.step_over e) a
      else if code == 11
      then answer e (backtrace_payload emu e) a
      else if code == 12
      then and_then (write_debug (12 ∷ []) a) (λ t. (t, ended))
      else unknown_request a

  unfoldable pub request_4 : ℕ → ℕ → ℕ → ℕ → Adapter → Step
  unfolding write_debug breakpoint_payload unknown_request u24
  request_4 code a0 a1 a2 a =
      let added = emu.add_breakpoint (u24 a0 a1 a2) a.emulator in
      let removed = emu.remove_breakpoint (u24 a0 a1 a2) a.emulator in
      if code == 6
      then answer added (breakpoint_payload emu added) a
      else if code == 7
      then answer removed (breakpoint_payload emu removed) a
      else unknown_request a

  -- A debugger request, by its payload.
  unfoldable pub debug_request : Frame → Bytes → Adapter → Step
  unfolding feed_target_frame request_1 request_4 first_registers second_registers memory_payload
      write_debug unknown_request
  debug_request f (code ∷ []) a = if code == 1 then feed_target_frame f a else request_1 code a
  debug_request f (code ∷ endpoint ∷ []) a =
      if code == 13
      then feed_target_frame f a
      else if code == 2
      then (if emu.is_running a.emulator
          then feed_target_frame f a
          else and_then (write_debug (first_registers endpoint (emu.snapshot a.emulator)) a)
              (write_debug (second_registers endpoint (emu.snapshot a.emulator))))
      else unknown_request a
  debug_request f (code ∷ a0 ∷ a1 ∷ a2 ∷ []) a = request_4 code a0 a1 a2 a
  debug_request f (code ∷ a0 ∷ a1 ∷ a2 ∷ size ∷ []) a =
      if code == 3
      then (if emu.is_running a.emulator
          then feed_target_frame f a
          else write_debug (memory_payload emu a.emulator a0 a1 a2 size) a)
      else unknown_request a
  debug_request f other a = unknown_request a

  -- `handle_frame`.
  unfoldable pub handle_frame : Frame → Adapter → Step
  unfolding feed_uart_bytes feed_target_frame debug_request target_frame unknown_request bytes_eq
  handle_frame f a =
      if f.kind == raw_uart
      then feed_uart_bytes heartbeat_byte_cycles f.payload a
      else if f.kind == 9
      then debug_request f f.payload a
      else if f.kind == 12 && bytes_eq f.payload (codes "SWT1") || target_frame f.kind
      then feed_target_frame f a
      else unknown_request a

  unfoldable pub handle_frames : List Frame → Adapter → Step
  unfolding handle_frame
  handle_frames [] a = (a, going)
  handle_frames (f ∷ fs) a = and_then (handle_frame f a) (handle_frames fs)

  -- What the `match` on `io.read` finds.
  pub data Read : Type 0 where
    received : Bytes → Read
    would_block : Read
    read_error : Text → Read

  -- The end of a pass of the loop: the emulator runs for a while.
  unfoldable pub run_on : Adapter → Step
  unfolding flush_uart write_debug stop_payload
  run_on a =
      if emu.is_running a.emulator
      then (let (e, reason) = emu.run_batch 50000 a.emulator in
          and_then (flush_uart (record a { emulator = e })) (report reason))
      else (a, going)

  -- A pass of the loop of `main`; a read of no bytes ends it.
  unfoldable pub pass : Read → Decoder → Adapter → Decoder × Step
  unfolding handle_frames run_on Decoder.push
  pass (received []) d a = (d, (a, ended))
  pass (received (b ∷ bs)) d a =
      let (next, frames) = Decoder.push d (b ∷ bs) in
      (next, and_then (handle_frames frames a) run_on)
  pass would_block d a = (d, run_on a)
  pass (read_error e) d a = (d, (a, failed e))

  -- `loop`: the passes go on until one ends, fails or panics.
  abbrev pub then_on : Decoder × Step → (Decoder → Adapter → Decoder × Step) → Decoder × Step
  then_on (d, (a, going)) next = next d a
  then_on (d, (a, ended)) next = (d, (a, ended))
  then_on (d, (a, panicked)) next = (d, (a, panicked))
  then_on (d, (a, failed e)) next = (d, (a, failed e))

  unfoldable pub passes : List Read → Decoder → Adapter → Decoder × Step
  unfolding pass
  passes [] d a = (d, (a, going))
  passes (r ∷ rs) d a = then_on (pass r d a) (passes rs)
