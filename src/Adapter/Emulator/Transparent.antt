-- ===== src/Adapter/Emulator/Transparent.antt =====
-- The adapter of tools/cor24-debug-adapter/src/main.rs between the frontend and the program that
-- runs in the emulator: what the UART receives.
use sw_tos.Adapter.{Frame, raw_uart}
use sw_tos.Adapter.Decoder.{Decoder, fresh}
use sw_tos.Adapter.Decoder
use sw_tos.Adapter.Decoder.Stream.{Message, received, stream_of, Fits, push_all, push_all-messages}
use sw_tos.Adapter.Emulator.{
  Emulator, going, ended, panicked, failed, Adapter, Step, handle_frame, handle_frames, Read,
  received as arrived, would_block, read_error, run_on, pass, passes, then_on,
  heartbeat_byte_cycles,
}
use sw_tos.Base.{
  ℕ, List, [], ◌∷◌, ◌++◌, append_assoc, append-nil, map, Option, true, ◌==◌, ◌≡◌, refl, ap, ◌∙◌,
  concat, arith, Bytes, Text, All, Bool-cases, All-split, subst, inl, inr,
}
use sw_tos.Adapter.Emulator.Faithful.{
  IsFaithful, IsSynced, Feeds, and_then-Feeds, feed_uart_bytes-Feeds, feed_target_frame-Feeds,
  run_on-Feeds, going-Feeds,
}
use sw_tos.Adapter.Emulator.Frames.{
  is_transparent, fed_bytes, not_debug, is_target, fed_each, fed_each-append, AreTransparent,
  fed_each-received,
}

module _ {E W : Type 0} (emu : Emulator E) (put : W → Bytes → W × Option Text) (uart : E → Bytes)
    (faithful : IsFaithful emu put uart) where
  handle_frame-Feeds :
      (f : Frame) (a : Adapter emu put)
      → is_transparent f ≡ true
      → IsSynced emu put uart faithful a
      → Feeds emu put uart faithful (fed_bytes f) a.emulator (handle_frame emu put f a)
  unfolding handle_frame fed_bytes
  handle_frame-Feeds f a clear h = elim (Bool-cases (f.kind == raw_uart)) [
    | inl r ↦ rw r (feed_uart_bytes-Feeds emu put uart faithful heartbeat_byte_cycles f.payload a h)
    | inr n ↦
        rw (n, not_debug f clear, is_target f clear n)
          (feed_target_frame-Feeds emu put uart faithful f a h)
  ]

  handle_frames-Feeds :
      (fs : List Frame) (a : Adapter emu put)
      → All (λ f. is_transparent f ≡ true) fs
      → IsSynced emu put uart faithful a
      → Feeds emu put uart faithful (fed_each fs) a.emulator (handle_frames emu put fs a)
  unfolding handle_frames
  handle_frames-Feeds [] a clear h = going-Feeds emu put uart faithful a h
  handle_frames-Feeds (f ∷ fs) a clear h =
      and_then-Feeds emu put uart faithful (fed_bytes f) (fed_each fs) a.emulator
        (handle_frame emu put f a) (handle_frames emu put fs) (handle_frame-Feeds f a clear.0 h)
        (λ t k. handle_frames-Feeds fs t clear.1 k)

  -- The bytes that the reads find.
  abbrev pub contents : List (Read emu put) → List Bytes
  contents [] = []
  contents (arrived bytes ∷ rs) = bytes ∷ contents rs
  contents (would_block ∷ rs) = contents rs
  contents (read_error e ∷ rs) = contents rs

  -- No read ends the session.
  abbrev pub IsUsual : Read emu put → Type 0
  IsUsual (arrived []) = ⊥
  IsUsual (arrived (b ∷ bs)) = Unit
  IsUsual would_block = Unit
  IsUsual (read_error e) = ⊥

  -- Some turns leave a decoder, and a step in which the UART received some bytes.
  abbrev pub Reaches : Decoder → Bytes → E → Decoder × Step emu put → Type 0
  Reaches d bytes e r = (r.0 ≡ d) × Feeds emu put uart faithful bytes e r.1

  then_on-Reaches :
      (bs cs : Bytes) (d d' : Decoder) (e : E) (r : Decoder × Step emu put)
      (next : Decoder → Adapter emu put → Decoder × Step emu put)
      → Reaches d bs e r
      → ((a : Adapter emu put)
          → IsSynced emu put uart faithful a
          → Reaches d' cs a.emulator (next d a))
      → Reaches d' (bs ++ cs) e (then_on emu put r next)
  then_on-Reaches bs cs d d' e (x, (a, going)) next h k =
      let t : Reaches d' cs a.emulator (next x a) = rw h.0 (k a h.1.synced) in
      (
        t.0,
        record {
          goes = t.1.goes;
          got = t.1.got ∙ ap (λ u. u ++ cs) h.1.got ∙ append_assoc (uart e) bs cs;
          synced = t.1.synced;
        },
      )
  then_on-Reaches bs cs d d' e (x, (a, ended)) next h k = absurd (grind (arith, h.1.goes))
  then_on-Reaches bs cs d d' e (x, (a, panicked)) next h k = absurd (grind (arith, h.1.goes))
  then_on-Reaches bs cs d d' e (x, (a, failed s)) next h k = absurd (grind (arith, h.1.goes))

  pass-Reaches :
      (b : ℕ) (bs : Bytes) (d : Decoder) (a : Adapter emu put)
      → AreTransparent (Decoder.push d (b ∷ bs)).1
      → IsSynced emu put uart faithful a
      → Reaches
          (Decoder.push d (b ∷ bs)).0
          (fed_each (Decoder.push d (b ∷ bs)).1)
          a.emulator
          (pass emu put (arrived (b ∷ bs)) d a)
  unfolding pass
  pass-Reaches b bs d a clear h =
      let fs = (Decoder.push d (b ∷ bs)).1 in
      let t =
        and_then-Feeds emu put uart faithful (fed_each fs) [] a.emulator
          (handle_frames emu put fs a) (run_on emu put) (handle_frames-Feeds fs a clear h)
          (run_on-Feeds emu put uart faithful) in
      (refl, rw (← append-nil (fed_each fs)) t)

  passes-push_all :
      (rs : List (Read emu put)) (d : Decoder) (a : Adapter emu put)
      → All IsUsual rs
      → AreTransparent (push_all d (contents rs)).1
      → IsSynced emu put uart faithful a
      → Reaches
          (push_all d (contents rs)).0
          (fed_each (push_all d (contents rs)).1)
          a.emulator
          (passes emu put rs d a)
  unfolding passes push_all
  passes-push_all [] d a usual clear h = (refl, going-Feeds emu put uart faithful a h)
  passes-push_all (arrived [] ∷ rs) d a usual clear h = absurd usual.0
  passes-push_all (arrived (b ∷ bs) ∷ rs) d a usual clear h =
      let (d', fs) = Decoder.push d (b ∷ bs) in
      let (d'', gs) = push_all d' (contents rs) in
      let (now, later) = All-split (λ f. is_transparent f ≡ true) fs gs clear in
      rw (fed_each-append fs gs) (
        then_on-Reaches (fed_each fs) (fed_each gs) d' d'' a.emulator
          (pass emu put (arrived (b ∷ bs)) d a) (passes emu put rs) (pass-Reaches b bs d a now h)
          (λ t k. passes-push_all rs d' t usual.1 later k))
  passes-push_all (would_block ∷ rs) d a usual clear h =
      then_on-Reaches [] (fed_each (push_all d (contents rs)).1) d (push_all d (contents rs)).0
        a.emulator (pass emu put would_block d a) (passes emu put rs)
        (unfold pass in (refl, run_on-Feeds emu put uart faithful a h))
        (λ t k. passes-push_all rs d t usual.1 clear k)
  passes-push_all (read_error e ∷ rs) d a usual clear h = absurd usual.0

  -- The adapter hides nothing from the program and adds nothing: the frames of the kinds meant for it
  -- and the heartbeats that the frontend writes, cut into reads at any places with reads between
  -- them that find nothing, reach the UART byte for byte, and the adapter goes on; for an emulator
  -- whose UART gets what is sent and whose log does not shrink, and a terminal that takes
  -- what is written.
  pub passes-messages :
      (ms : List Message) (rs : List (Read emu put)) (a : Adapter emu put)
      → All Fits ms
      → AreTransparent (map received ms)
      → All IsUsual rs
      → concat (contents rs) ≡ stream_of ms
      → IsSynced emu put uart faithful a
      → Reaches fresh (stream_of ms) a.emulator (passes emu put rs fresh a)
  passes-messages ms rs a fits clear usual cut h =
      let all = push_all-messages ms (contents rs) fits cut in
      let k = passes-push_all rs fresh a usual (rw all clear) h in
      rw (← fed_each-received ms)
        (subst (λ r. Reaches r.0 (fed_each r.1) a.emulator (passes emu put rs fresh a)) all k)
