-- ===== src/Tests/Captures.antt =====
-- A byte in a capture, read by the decoder of tools/te-rs/src/bin/sr-report.rs.
use sw_tos.Base.{ℕ, List, [], ◌∷◌, true, false, ◌≡◌, refl, arith, Bytes, codes, from_utf8_lossy}
use sw_tos.Report.{Clock, uart_clock, samples, new_decoder, text_report}
use sw_tos.Report.Reading.{Sent, AnySent, all_samples}
use sw_tos.Report.Timing.{IsNear, samples-sent_bytes}

-- Two samples to a bit.
abbrev two_rate : ℕ
two_rate = 1843200

two_rate-IsNear : IsNear two_rate 2
two_rate-IsNear = record { not_fast = omega arith; not_slow = omega arith; begins = omega arith }

abbrev clock : Clock ℕ
clock = uart_clock two_rate

-- The letter A on the wire D3, with another wire that changes.
abbrev up : Bytes
up = 8 ∷ 9 ∷ []

abbrev down : Bytes
down = 1 ∷ 0 ∷ []

abbrev letter : Sent clock 2 3 65
letter = record {
  gap = up;
  low = down;
  cells =
      (true, up)
      ∷ (false, down)
      ∷ (false, down)
      ∷ (false, down)
      ∷ (false, down)
      ∷ (false, down)
      ∷ (true, up)
      ∷ (false, down)
      ∷ [];
  high = up;
  is_byte = omega arith;
  gap_high = (refl, (refl, tt));
  start_bit = (refl, (refl, (refl, tt)));
  bits = refl;
  cells_hold = (
    (refl, (refl, (refl, tt))),
    (
      (refl, (refl, (refl, tt))),
      (
        (refl, (refl, (refl, tt))),
        (
          (refl, (refl, (refl, tt))),
          (
            (refl, (refl, (refl, tt))),
            (
              (refl, (refl, (refl, tt))),
              ((refl, (refl, (refl, tt))), ((refl, (refl, (refl, tt))), tt)),
            ),
          ),
        ),
      ),
    ),
  );
  stop_bit = (refl, (refl, (refl, tt)));
}

abbrev capture : List (AnySent clock 2 3)
capture = (65, letter) ∷ []

samples-sent_bytes_example :
    (samples clock (new_decoder clock 3) 0 (all_samples clock 2 3 capture)).1 ≡ (2, 65) ∷ []
samples-sent_bytes_example = samples-sent_bytes two_rate 2 two_rate-IsNear 3 capture

-- A line that ends and one that does not, with a byte that is not printed as it is.
two_lines :
    text_report ((4, 72) ∷ (9, 105) ∷ (14, 10) ∷ (30, 7) ∷ [])
    ≡ (4, codes "Hi") ∷ (30, codes "<07>") ∷ []
unfolding text_report from_utf8_lossy
two_lines = refl
