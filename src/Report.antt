-- ===== src/Report.antt =====
-- The report of a logic capture: tools/te-rs/src/bin/sr-report.rs. The instants at which its decoder
-- of the UART reads a bit are of the type `f64`; `uart_clock` has them as exact fractions of a sample,
-- so that what floating point rounds is not in the model. Unpacking the capture, its metadata and
-- the printing are left out.
pub mod Timing
pub mod Waveform
pub mod Bits
pub mod Cells
pub mod Reading
use sw_tos.Base.{
  ℕ, suc, ◌+◌, ◌*◌, ◌/◌, ◌%◌, ◌^◌, List, [], ◌∷◌, ◌++◌, Option, none, some, Bool, true, false, not,
  ◌&&◌, leb, ltb, ◌==◌, if◌then◌else◌, Bytes, Text, codes, from_utf8_lossy,
}

-- The instants at which a bit is read, as numbers of the type `f64`: the first of them after a sample,
-- one bit and a half later, the one a bit after another, and whether a sample has reached one.
pub record Clock (F : Type 0) : Type 0 where
  pub zero_instant : F
  pub first : ℕ → F
  pub later : F → F
  pub reached : ℕ → F → Bool

-- The instants as the decoder computes them, for a rate of samples a second: one bit has
-- rate / 921600 samples, the first instant is one bit and a half after the sample that begins the
-- byte, and each later one a bit after the one before. An instant is counted in parts of a sample, of
-- which there are twice 921600, so that the half of a bit is whole.
abbrev pub baud : ℕ
baud = 921600

unfoldable pub uart_clock : ℕ → Clock ℕ
uart_clock rate = record {
  zero_instant = 0;
  first = λ index. 2 * baud * index + 3 * rate;
  later = λ next_sample. next_sample + 2 * rate;
  reached = λ index next_sample. leb next_sample (2 * baud * index);
}

pub record UartDecoder (F : Type 0) : Type 0 where
  pub channel : ℕ
  pub previous : Bool
  pub next_sample : F
  pub bit : ℕ
  pub byte : ℕ
  pub start : ℕ
  pub receiving : Bool

-- `packed & (1 << channel) != 0`, and `byte |= 1 << bit`.
abbrev pub level_of : ℕ → ℕ → Bool
level_of channel packed = packed / 2 ^ channel % 2 == 1

abbrev pub with_bit : ℕ → ℕ → ℕ
with_bit byte bit = if byte / 2 ^ bit % 2 == 1 then byte else byte + 2 ^ bit

module _ {F : Type 0} (clock : Clock F) where
  abbrev pub new_decoder : ℕ → UartDecoder F
  new_decoder channel = record {
    channel = channel;
    previous = true;
    next_sample = clock.zero_instant;
    bit = 0;
    byte = 0;
    start = 0;
    receiving = false;
  }

  -- A bit, or the stop bit: a byte is complete if the line is high there.
  abbrev pub read_bit : UartDecoder F → Bool → UartDecoder F × Option (ℕ × ℕ)
  read_bit d level =
      if ltb d.bit 8
      then (
        record d {
          byte = if level then with_bit d.byte d.bit else d.byte;
          bit = suc d.bit;
          next_sample = clock.later d.next_sample;
          previous = level;
        },
        none,
      )
      else (
        record d { receiving = false; previous = level },
        if level then some (d.start, d.byte) else none,
      )

  abbrev pub begun : UartDecoder F → ℕ → Bool → UartDecoder F
  begun d index level = record d {
    receiving = true;
    start = index;
    bit = 0;
    byte = 0;
    next_sample = clock.first index;
    previous = level;
  }

  abbrev pub sample_level : UartDecoder F → ℕ → Bool → UartDecoder F × Option (ℕ × ℕ)
  sample_level d index level =
      if not d.receiving && (d.previous && not level)
      then (begun d index level, none)
      else if d.receiving && clock.reached index d.next_sample
      then read_bit d level
      else (record d { previous = level }, none)

  -- `UartDecoder::sample`.
  unfoldable pub sample : UartDecoder F → ℕ → ℕ → UartDecoder F × Option (ℕ × ℕ)
  sample d index packed = sample_level d index (level_of d.channel packed)

  abbrev pub listed : Option (ℕ × ℕ) → List (ℕ × ℕ)
  listed none = []
  listed (some found) = found ∷ []

  -- The samples of a capture, from an index on: the bytes and where each began.
  unfoldable pub samples : UartDecoder F → ℕ → Bytes → UartDecoder F × List (ℕ × ℕ)
  unfolding sample
  samples d index [] = (d, [])
  samples d index (packed ∷ more) =
      let (d', found) = sample d index packed in
      let (d'', later) = samples d' (suc index) more in (d'', listed found ++ later)

-- Text mode: the line so far and where it began.
pub record TextLine : Type 0 where
  pub line : Bytes
  pub line_start : ℕ

abbrev hex_digit : ℕ → ℕ
hex_digit n = if ltb n 10 then 48 + n else 55 + n

-- The bytes of a byte in a line.
unfoldable pub spelled : ℕ → Bytes
spelled byte =
    if byte == 13
    then []
    else if leb 0x20 byte && leb byte 0x7e
    then byte ∷ []
    else b'<' ∷ hex_digit (byte / 16) ∷ hex_digit (byte % 16) ∷ b'>' ∷ []

abbrev pub start_of : TextLine → ℕ → ℕ
start_of t start = elim t.line [ [] ↦ start | b ∷ bs ↦ t.line_start ]

-- A byte: the lines that are printed, each with its start, and the line that goes on.
unfoldable pub text_byte : TextLine → ℕ × ℕ → TextLine × List (ℕ × Text)
unfolding spelled from_utf8_lossy
text_byte t (start, byte) =
    if byte == 10
    then (
      record { line = []; line_start = start_of t start },
      (start_of t start, from_utf8_lossy t.line) ∷ [],
    )
    else (record { line = t.line ++ spelled byte; line_start = start_of t start }, [])

unfoldable pub text_bytes : TextLine → List (ℕ × ℕ) → TextLine × List (ℕ × Text)
unfolding text_byte
text_bytes t [] = (t, [])
text_bytes t (found ∷ more) =
    let (t', printed) = text_byte t found in
    let (t'', later) = text_bytes t' more in (t'', printed ++ later)

-- The line that is left at the end is printed too.
abbrev pub last_line : TextLine → List (ℕ × Text)
last_line t = elim t.line [ [] ↦ [] | b ∷ bs ↦ (t.line_start, from_utf8_lossy t.line) ∷ [] ]

unfoldable pub text_report : List (ℕ × ℕ) → List (ℕ × Text)
unfolding text_bytes
text_report found =
    let (t, printed) = text_bytes (record { line = []; line_start = 0 }) found in
    printed ++ last_line t
