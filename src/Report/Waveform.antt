-- ===== src/Report/Waveform.antt =====
-- What the decoder of tools/te-rs/src/bin/sr-report.rs reads in a waveform of 8 data bits.
use sw_tos.Base.{
  ℕ, suc, ◌+◌, ◌<◌, List, [], ◌∷◌, ◌++◌, append_assoc, Bool, true, false, ltb, if◌then◌else◌, ◌≡◌,
  refl, sym, ap, arith, Bytes, length, All,
}
use sw_tos.Report.{Clock, UartDecoder, level_of, with_bit, sample, listed, samples}

module _ {F : Type 0} (clock : Clock F) where
  abbrev Run : Type 0
  Run = UartDecoder F × List (ℕ × ℕ)

  -- The line has one level in all of some samples.
  abbrev pub Holds : ℕ → Bool → Bytes → Type 0
  Holds channel level = All (λ packed. level_of channel packed ≡ level)

  abbrev after : Run → Run → Run
  after first second = (second.0, first.1 ++ second.1)

  pub samples-append :
      (d : UartDecoder F) (index : ℕ) (a b : Bytes)
      → samples clock d index (a ++ b)
        ≡ after
            (samples clock d index a)
            (samples clock (samples clock d index a).0 (index + length a) b)
  unfolding samples
  samples-append d index [] b = let same : index + 0 ≡ index = omega arith in rw same refl
  samples-append d index (x ∷ a) b =
      let (d', found) = sample clock d index x in
      let same : suc index + length a ≡ index + suc (length a) = omega arith in
      let rest = samples-append d' (suc index) a b in
      rw (← same, rest)
        (ap
          (λ l. ((samples clock (samples clock d' (suc index) a).0 (suc index + length a) b).0, l))
          (sym (
            append_assoc (listed clock found) (samples clock d' (suc index) a).1
              (samples clock (samples clock d' (suc index) a).0 (suc index + length a) b).1)))

  -- A decoder that is receiving.
  abbrev pub busy : ℕ → F → ℕ → ℕ → ℕ → Bool → UartDecoder F
  busy channel next bit byte start q = record {
    channel = channel;
    previous = q;
    next_sample = next;
    bit = bit;
    byte = byte;
    start = start;
    receiving = true;
  }

  -- A decoder that waits for the line to go low.
  abbrev pub idle : ℕ → F → ℕ → ℕ → ℕ → Bool → UartDecoder F
  idle channel next bit byte start q = record (busy channel next bit byte start q) {
    receiving = false;
  }

  pub idle_waits :
      (channel start : ℕ) (next : F) (bit byte index : ℕ) (xs : Bytes)
      → Holds channel true xs
      → samples clock (idle channel next bit byte start true) index xs
        ≡ (idle channel next bit byte start true, [])
  unfolding samples sample
  idle_waits channel start next bit byte index [] same = refl
  idle_waits channel start next bit byte index (x ∷ xs) (here, there) =
      rw (here, idle_waits channel start next bit byte (suc index) xs there) refl

  module _ (channel start : ℕ) where
    -- Up to the next instant nothing changes but the level.
    pub waits :
        (next : F) (bit byte : ℕ) (q : Bool) (index : ℕ) (level : Bool) (xs : Bytes)
        → ((i : ℕ) → i < index + length xs → clock.reached i next ≡ false)
        → Holds channel level xs
        → (q' : Bool) × (samples clock (busy channel next bit byte start q) index xs
            ≡ (busy channel next bit byte start q', []))
    unfolding samples sample
    waits next bit byte q index level [] early same = (q, refl)
    waits next bit byte q index level (x ∷ xs) early (here, there) =
        let (q', rest) =
          waits next bit byte level (suc index) level xs (λ i low. early i (omega arith)) there in
        (q', rw (here, early index (omega arith), rest) refl)

    -- The next instant is at a sample between others of the same level.
    pub cell :
        (next : F) (bit byte : ℕ) (q : Bool) (index : ℕ) (level : Bool) (a : Bytes) (x : ℕ)
        (b : Bytes)
        → bit < 8
        → ((i : ℕ) → i < index + length a → clock.reached i next ≡ false)
        → clock.reached (index + length a) next ≡ true
        → ((i : ℕ)
            → i < suc (index + length a) + length b
            → clock.reached i (clock.later next) ≡ false)
        → Holds channel level a
        → level_of channel x ≡ level
        → Holds channel level b
        → (q' : Bool) × (samples clock (busy channel next bit byte start q) index (a ++ x ∷ b) ≡ (
          busy channel
              (clock.later next)
              (suc bit)
              (if level then with_bit byte bit else byte)
              start
              q',
          [],
        ))
    unfolding samples sample
    cell next bit byte q index level a x b few early now quiet ha hx hb =
        let (q1, first) = waits next bit byte q index level a early ha in
        let byte' = if level then with_bit byte bit else byte in
        let (q2, rest) =
          waits (clock.later next) (suc bit) byte' level (suc (index + length a)) level b quiet
            hb in
        let is_data : ltb bit 8 ≡ true = ground arith in
        (
          q2,
          rw
              (
                samples-append (busy channel next bit byte start q) index a (x ∷ b),
                first,
                hx,
                now,
                is_data,
                rest,
              )
              refl,
        )

    -- The stop bit.
    pub stop_cell :
        (next : F) (byte : ℕ) (q : Bool) (index : ℕ) (a : Bytes) (x : ℕ) (b : Bytes)
        → ((i : ℕ) → i < index + length a → clock.reached i next ≡ false)
        → clock.reached (index + length a) next ≡ true
        → Holds channel true a
        → level_of channel x ≡ true
        → Holds channel true b
        → samples clock (busy channel next 8 byte start q) index (a ++ x ∷ b)
          ≡ (idle channel next 8 byte start true, (start, byte) ∷ [])
    unfolding samples sample
    stop_cell next byte q index a x b early now ha hx hb =
        let (q1, first) = waits next 8 byte q index true a early ha in
        rw
          (
            samples-append (busy channel next 8 byte start q) index a (x ∷ b),
            first,
            hx,
            now,
            idle_waits channel start next 8 byte (suc (index + length a)) b hb,
          )
          refl
