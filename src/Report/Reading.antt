-- ===== src/Report/Reading.antt =====
-- A byte on the wire is a byte in the report of tools/te-rs/src/bin/sr-report.rs.
use sw_tos.Base.{
  ℕ, suc, ◌+◌, ◌<◌, List, [], ◌∷◌, ◌++◌, Bool, true, false, ◌≡◌, refl, sym, ap, ◌∙◌, Bytes, length,
  All,
}
use sw_tos.Report.Bits.{gathered, levels_of, gathered-levels_of}
use sw_tos.Report.Waveform.{Holds, idle, idle_waits, samples-append}
use sw_tos.Report.{Clock, samples, new_decoder}
use sw_tos.Report.Cells.{wires, levels, instant, IsPrecise, byte_at}

module _ {F : Type 0} (clock : Clock F) (w : ℕ) where
  -- What is on the wire for a byte: a line that is high for a while, a start bit, the cells of the bits
  -- with the least significant first, and a stop bit.
  pub record Sent (channel byte : ℕ) : Type 0 where
    pub gap : Bytes
    pub low : Bytes
    pub cells : List (Bool × Bytes)
    pub high : Bytes
    pub is_byte : byte < 256
    pub gap_high : Holds clock channel true gap
    pub start_bit : (length low ≡ w) × Holds clock channel false low
    pub bits : levels cells ≡ levels_of byte
    pub cells_hold :
        All (λ (c : Bool × Bytes). (length c.1 ≡ w) × Holds clock channel c.0 c.1) cells
    pub stop_bit : (length high ≡ w) × Holds clock channel true high

  -- The samples of a byte, and of several bytes one after another.
  abbrev pub samples_of : {channel byte : ℕ} → Sent channel byte → Bytes
  samples_of s = s.gap ++ (s.low ++ (wires s.cells ++ s.high))

  abbrev pub AnySent : ℕ → Type 0
  AnySent channel = (byte : ℕ) × Sent channel byte

  abbrev pub all_samples : (channel : ℕ) → List (AnySent channel) → Bytes
  all_samples channel [] = []
  all_samples channel ((byte, s) ∷ more) = samples_of s ++ all_samples channel more

  -- Each byte, with the sample at which its start bit begins.
  abbrev pub sent_bytes : (channel : ℕ) → ℕ → List (AnySent channel) → List (ℕ × ℕ)
  sent_bytes channel index [] = []
  sent_bytes channel index ((byte, s) ∷ more) =
      (index + length s.gap, byte) ∷ sent_bytes channel (index + length (samples_of s)) more

  length-levels : (cs : List (Bool × Bytes)) → length (levels cs) ≡ length cs
  length-levels [] = refl
  length-levels ((level, xs) ∷ cs) = ap suc (length-levels cs)

  sent_lem :
      IsPrecise clock w
      → (channel byte : ℕ) (s : Sent channel byte) (next : F) (bit old began index : ℕ)
      → (next' : F) × (began' : ℕ) × (samples clock
            (idle clock channel next bit old began true)
            index
            (samples_of s)
          ≡ (idle clock channel next' 8 byte began' true, (index + length s.gap, byte) ∷ []))
  sent_lem precise channel byte s next bit old began index =
      let start = index + length s.gap in
      let eight : length s.cells ≡ 8 = sym (length-levels s.cells) ∙ ap length s.bits in
      let value : gathered 0 (levels s.cells) 0 ≡ byte =
        rw s.bits (gathered-levels_of byte s.is_byte) in
      let quiet = idle_waits clock channel began next bit old index s.gap s.gap_high in
      let whole =
        byte_at clock w precise channel start next bit old began s.low s.cells s.high s.start_bit
          (eight, s.cells_hold) s.stop_bit in
      (
        instant clock w start 8,
        start,
        samples-append clock (idle clock channel next bit old began true) index s.gap
              (s.low ++ (wires s.cells ++ s.high))
            ∙ rw (quiet, whole, value) refl,
      )

  all_sent :
      IsPrecise clock w
      → (channel : ℕ) (ss : List (AnySent channel)) (next : F) (bit old began index : ℕ)
      → (samples clock
          (idle clock channel next bit old began true)
          index
          (all_samples channel ss)).1
        ≡ sent_bytes channel index ss
  all_sent precise channel [] next bit old began index = unfold samples in refl
  all_sent precise channel ((byte, s) ∷ more) next bit old began index =
      let (next', began', here) = sent_lem precise channel byte s next bit old began index in
      let rest =
        all_sent precise channel more next' 8 byte began' (index + length (samples_of s)) in
      rw
        (
          samples-append clock (idle clock channel next bit old began true) index (samples_of s)
              (all_samples channel more),
          here,
          rest,
        )
        refl

  -- With a clock that reaches the instant of each bit at a sample of that bit, a new decoder finds the
  -- bytes that were sent on its channel.
  pub precise_samples :
      IsPrecise clock w
      → (channel : ℕ) (ss : List (AnySent channel))
      → (samples clock (new_decoder clock channel) 0 (all_samples channel ss)).1
        ≡ sent_bytes channel 0 ss
  precise_samples precise channel ss = all_sent precise channel ss clock.zero_instant 0 0 0 0
