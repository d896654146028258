-- ===== src/Tests/Emulators.antt =====
-- Runs of the adapter of tools/cor24-debug-adapter/src/main.rs with an emulator that runs nothing.
use sw_tos.Adapter.Decoder.{fresh}
use sw_tos.Adapter.Decoder.Stream.{Message, frame, beat, received, stream_of}
use sw_tos.Adapter.Emulator.Faithful.{IsFaithful, Feeds}
use sw_tos.Adapter.Emulator.Transparent.{passes-messages, contents}
use sw_tos.Adapter.Emulator.{
  halted, cycle_limit, Snapshot, Emulator, Adapter, Read, received as arrived, would_block, passes,
}
use sw_tos.Base.{
  ℕ, List, [], ◌∷◌, ◌++◌, map, Option, none, true, false, ◌≡◌, refl, concat, arith, Bytes, Text,
  take, drop, append-nil, take-append-drop,
}
use sw_tos.Adapter.Emulator.Frames.{is_transparent, AreTransparent}
use sw_tos.Adapter.{target_frame}
use sw_tos.Protocol.{FrameType, frame_bytes, code_of}

-- The state of the emulator: what its UART received, and its breakpoints.
abbrev Machine : Type 0
Machine = Bytes × List ℕ

abbrev idle_snapshot : Snapshot
idle_snapshot = record { regs = λ n. n; pc = 7; c = true; halted = false }

abbrev machine : Emulator Machine
machine = record {
  pause = λ e. e;
  resume = λ e. e;
  is_running = λ e. true;
  run_batch = λ n e. (e, cycle_limit);
  step = λ e. (e, halted);
  step_over = λ e. (e, halted);
  send_uart_byte = λ b e. (e.0 ++ b ∷ [], e.1);
  uart_log = λ e. [];
  clear_uart_output = λ e. e;
  pc = λ e. 0x1234;
  snapshot = λ e. idle_snapshot;
  read_memory = λ e a n. [];
  read_word = λ e a. 5;
  breakpoints = λ e. e.1;
  add_breakpoint = λ a e. (e.0, a ∷ e.1);
  remove_breakpoint = λ a e. e;
}

abbrev terminal : Bytes → Bytes → Bytes × Option Text
terminal w bytes = (w ++ bytes, none)

abbrev uart : Machine → Bytes
uart e = e.0

machine-IsFaithful : IsFaithful machine terminal uart
machine-IsFaithful = record {
  sends = λ b e. refl;
  resumes = λ e. refl;
  runs = λ n e. refl;
  clears = λ e. refl;
  log_sends = λ b e. omega arith;
  log_resumes = λ e. omega arith;
  log_runs = λ n e. omega arith;
  log_clears = λ e. omega arith;
  takes = λ w bytes. refl;
}

abbrev two_points : Machine
two_points = ([], 0x100 ∷ 0x200 ∷ [])

-- What the frontend writes: input for an endpoint, a heartbeat, and the time.
abbrev for_program : List Message
for_program =
    frame (record { kind = FrameType.tty_input; channel = 2; payload = 108 ∷ 115 ∷ [] })
    ∷ beat 0x34 0x12 0
    ∷ frame (record { kind = FrameType.uptime; channel = 0; payload = 1 ∷ 0 ∷ [] })
    ∷ []

for_program_passes : AreTransparent (map received for_program)
for_program_passes = unfold is_transparent target_frame code_of in (refl, (refl, (refl, tt)))

-- The cut is in the middle of the heartbeat, with a read between that finds nothing.
abbrev reads : List (Read machine terminal)
reads =
    arrived (take 12 (stream_of for_program))
    ∷ would_block
    ∷ arrived (drop 12 (stream_of for_program))
    ∷ []

cut : concat (contents machine terminal uart machine-IsFaithful reads) ≡ stream_of for_program
cut =
    rw (append-nil (drop 12 (stream_of for_program))) (take-append-drop 12 (stream_of for_program))

abbrev adapter : Adapter machine terminal
adapter = record { emulator = two_points; io = []; uart_log_seen = 0 }

passes-messages_example :
    ((passes machine terminal reads fresh adapter).0 ≡ fresh)
    × Feeds machine terminal uart machine-IsFaithful
        (stream_of for_program)
        two_points
        (passes machine terminal reads fresh adapter).1
passes-messages_example =
    passes-messages machine terminal uart machine-IsFaithful for_program reads adapter
      (omega arith, (tt, (omega arith, tt))) for_program_passes
      (unfold frame_bytes in (tt, (tt, (tt, tt)))) cut (omega arith)
