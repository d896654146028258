-- ===== src/Adapter/Emulator/Faithful.antt =====
-- An emulator and a terminal that do what the adapter of tools/cor24-debug-adapter/src/main.rs
-- relies on, and what the UART receives in each of the adapter's steps.
use sw_tos.Adapter.{Frame, encoded_frame}
use sw_tos.Adapter.Emulator.{
  StopReason, Emulator, going, ended, panicked, failed, is_cycle_limit, output_bytes, Adapter, Step,
  and_then, write_bytes, write_debug, flushed, flush_uart, report, fed, feed_uart_bytes,
  feed_target_frame, run_on, target_byte_cycles,
}
use sw_tos.Base.{
  ℕ, ◌≤◌, [], ◌∷◌, ◌++◌, append_assoc, append-nil, Option, none, true, leb, ◌≡◌, refl, sym, ap, ◌∙◌,
  arith, Bytes, Text, length, drop, Bool-cases, inl, inr,
}

-- What the adapter relies on: the UART receives what is sent to it and nothing else, the log of
-- the UART does not shrink, and the terminal takes what is written.
pub record IsFaithful {E W : Type 0} (emu : Emulator E) (put : W → Bytes → W × Option Text)
    (uart : E → Bytes) : Type 0 where
  pub sends : (b : ℕ) (e : E) → uart (emu.send_uart_byte b e) ≡ uart e ++ b ∷ []
  pub resumes : (e : E) → uart (emu.resume e) ≡ uart e
  pub runs : (n : ℕ) (e : E) → uart (emu.run_batch n e).0 ≡ uart e
  pub clears : (e : E) → uart (emu.clear_uart_output e) ≡ uart e
  pub log_sends :
      (b : ℕ) (e : E) → length (emu.uart_log e) ≤ length (emu.uart_log (emu.send_uart_byte b e))
  pub log_resumes : (e : E) → length (emu.uart_log e) ≤ length (emu.uart_log (emu.resume e))
  pub log_runs :
      (n : ℕ) (e : E) → length (emu.uart_log e) ≤ length (emu.uart_log (emu.run_batch n e).0)
  pub log_clears :
      (e : E) → length (emu.uart_log e) ≤ length (emu.uart_log (emu.clear_uart_output e))
  pub takes : (w : W) (bytes : Bytes) → (put w bytes).1 ≡ none

module _ {E W : Type 0} (emu : Emulator E) (put : W → Bytes → W × Option Text) (uart : E → Bytes)
    (faithful : IsFaithful emu put uart) where
  -- The part of the log that was seen is a part of the log.
  abbrev pub IsSynced : Adapter emu put → Type 0
  IsSynced a = a.uart_log_seen ≤ length (emu.uart_log a.emulator)

  -- A step goes on, and the UART has received some bytes in it.
  pub record Feeds (bytes : Bytes) (e : E) (s : Step emu put) : Type 0 where
    pub goes : s.1 ≡ going
    pub got : uart s.0.emulator ≡ uart e ++ bytes
    pub synced : IsSynced s.0

  pub going-Feeds : (a : Adapter emu put) → IsSynced a → Feeds [] a.emulator (a, going)
  going-Feeds a h = record { goes = refl; got = sym (append-nil (uart a.emulator)); synced = h }

  pub and_then-Feeds :
      (bs cs : Bytes) (e : E) (s : Step emu put) (next : Adapter emu put → Step emu put)
      → Feeds bs e s
      → ((a : Adapter emu put) → IsSynced a → Feeds cs a.emulator (next a))
      → Feeds (bs ++ cs) e (and_then emu put s next)
  and_then-Feeds bs cs e (a, going) next h k =
      let t = k a h.synced in
      record {
        goes = t.goes;
        got = t.got ∙ ap (λ u. u ++ cs) h.got ∙ append_assoc (uart e) bs cs;
        synced = t.synced;
      }
  and_then-Feeds bs cs e (a, ended) next h k = absurd (grind (arith, h.goes))
  and_then-Feeds bs cs e (a, panicked) next h k = absurd (grind (arith, h.goes))
  and_then-Feeds bs cs e (a, failed x) next h k = absurd (grind (arith, h.goes))

  write_bytes-Feeds :
      (bytes : Bytes) (a : Adapter emu put)
      → IsSynced a
      → Feeds [] a.emulator (write_bytes emu put bytes a)
  write_bytes-Feeds bytes a h = record {
    goes = rw (faithful.takes a.io bytes) refl;
    got = sym (append-nil (uart a.emulator));
    synced = h;
  }

  flushed-Feeds :
      (bytes : Bytes) (a : Adapter emu put)
      → IsSynced a
      → Feeds [] a.emulator (flushed emu put bytes a)
  flushed-Feeds [] a h = going-Feeds a h
  flushed-Feeds (b ∷ bs) a h =
      and_then-Feeds [] [] a.emulator (write_bytes emu put (b ∷ bs) a) _
        (write_bytes-Feeds (b ∷ bs) a h)
        (λ t k. record {
          goes = refl;
          got = faithful.clears t.emulator ∙ sym (append-nil (uart t.emulator));
          synced = omega (arith, faithful.log_clears t.emulator);
        })

  flush_uart-Feeds : (a : Adapter emu put) → IsSynced a → Feeds [] a.emulator (flush_uart emu put a)
  unfolding flush_uart
  flush_uart-Feeds a h =
      let seen : leb a.uart_log_seen (length (emu.uart_log a.emulator)) ≡ true = ground arith in
      rw seen (
        flushed-Feeds (output_bytes (drop a.uart_log_seen (emu.uart_log a.emulator)))
          (record a { uart_log_seen = length (emu.uart_log a.emulator) }) (omega arith))

  report-Feeds :
      (r : StopReason) (a : Adapter emu put) → IsSynced a → Feeds [] a.emulator (report emu put r a)
  report-Feeds r a h = elim (Bool-cases (is_cycle_limit r)) [
    | inl e ↦ rw e (going-Feeds a h)
    | inr n ↦ rw n (unfold write_debug in (write_bytes-Feeds _ a h))
  ]

  -- A byte is received before the bytes that follow it.
  pub feed_uart_bytes-Feeds :
      (cycles : ℕ) (bytes : Bytes) (a : Adapter emu put)
      → IsSynced a
      → Feeds bytes a.emulator (feed_uart_bytes emu put cycles bytes a)
  unfolding feed_uart_bytes
  feed_uart_bytes-Feeds cycles [] a h = flush_uart-Feeds a h
  feed_uart_bytes-Feeds cycles (b ∷ bs) a h =
      let sent = emu.send_uart_byte b a.emulator in
      let e = (emu.run_batch cycles (emu.resume sent)).0 in
      let same : uart e ≡ uart a.emulator ++ b ∷ [] =
        faithful.runs cycles (emu.resume sent)
        ∙ faithful.resumes sent
        ∙ faithful.sends b a.emulator in
      let kept : IsSynced (record a { emulator = e }) = omega (
        arith,
        faithful.log_sends b a.emulator,
        faithful.log_resumes sent,
        faithful.log_runs cycles (emu.resume sent),
      ) in
      let t =
        and_then-Feeds [] bs e
          (report emu put (fed emu cycles b a.emulator).1 (record a { emulator = e }))
          (feed_uart_bytes emu put cycles bs) (report-Feeds _ (record a { emulator = e }) kept)
          (feed_uart_bytes-Feeds cycles bs) in
      record {
        goes = t.goes;
        got = t.got ∙ ap (λ u. u ++ bs) same ∙ append_assoc (uart a.emulator) (b ∷ []) bs;
        synced = t.synced;
      }

  pub feed_target_frame-Feeds :
      (f : Frame) (a : Adapter emu put)
      → IsSynced a
      → Feeds (encoded_frame f.kind f.channel f.payload) a.emulator (feed_target_frame emu put f a)
  unfolding feed_target_frame
  feed_target_frame-Feeds f a h =
      feed_uart_bytes-Feeds target_byte_cycles (encoded_frame f.kind f.channel f.payload) a h

  pub run_on-Feeds : (a : Adapter emu put) → IsSynced a → Feeds [] a.emulator (run_on emu put a)
  unfolding run_on
  run_on-Feeds a h =
      let e = (emu.run_batch 50000 a.emulator).0 in
      let synced : IsSynced (record a { emulator = e }) =
        omega (arith, faithful.log_runs 50000 a.emulator) in
      let t =
        and_then-Feeds [] [] e (flush_uart emu put (record a { emulator = e }))
          (report emu put (emu.run_batch 50000 a.emulator).1)
          (flush_uart-Feeds (record a { emulator = e }) synced) (report-Feeds _) in
      elim (Bool-cases (emu.is_running a.emulator)) [
        | inl r ↦ rw r (record {
          goes = t.goes;
          got = t.got ∙ ap (λ u. u ++ []) (faithful.runs 50000 a.emulator);
          synced = t.synced;
        })
        | inr n ↦ rw n (going-Feeds a h)
      ]
