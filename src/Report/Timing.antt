-- ===== src/Report/Timing.antt =====
-- The instants of tools/te-rs/src/bin/sr-report.rs fall in the cells of a line whose bits are about
-- as long as the decoder expects.
use sw_tos.Base.{ℕ, zero, suc, ◌+◌, ◌-◌, ◌*◌, ◌/◌, ◌≤◌, ◌<◌, List, leb, ◌≡◌, arith}
use sw_tos.Report.{baud, uart_clock, samples, new_decoder}
use sw_tos.Report.Cells.{IsPrecise, instant, edge}
use sw_tos.Report.Reading.{AnySent, all_samples, sent_bytes, precise_samples}

-- The bits of the line have w samples each, and the rate gives the decoder's bits nearly as many: 19
-- half bits of the decoder's are not below nine bits of the line, and with one sample more not
-- above ten; and three half bits with one sample more are not above two bits.
pub record IsNear (rate w : ℕ) : Type 0 where
  pub not_fast : 18 * (baud * w) ≤ 19 * rate
  pub not_slow : 19 * rate + 2 * baud ≤ 20 * (baud * w)
  pub begins : 3 * rate + 2 * baud ≤ 4 * (baud * w)

module _ (rate w : ℕ) where
  -- The first sample that reaches an instant.
  abbrev sample_of : ℕ → ℕ → ℕ
  sample_of start k = (instant (uart_clock rate) w start k + (2 * baud - 1)) / (2 * baud)

  instant_lem :
      (start k : ℕ) → instant (uart_clock rate) w start k ≡ 2 * baud * start + (3 + 2 * k) * rate
  unfolding uart_clock
  instant_lem start zero = omega arith
  instant_lem start (suc k) = grind (arith, instant_lem start k)

  edge_lem : (start k : ℕ) → edge (uart_clock rate) w start k ≡ start + k * w
  edge_lem start zero = omega arith
  edge_lem start (suc k) = grind (arith, edge_lem start k)

  sample_reached :
      (start k i : ℕ)
      → (uart_clock rate).reached i (instant (uart_clock rate) w start k)
        ≡ leb (sample_of start k) i
  unfolding uart_clock
  sample_reached start k i = reached_by (instant (uart_clock rate) w start k)
    where
      reached_by : (n : ℕ) → leb n (2 * baud * i) ≡ leb ((n + (2 * baud - 1)) / (2 * baud)) i
      reached_by n = ground arith

  module _ (near : IsNear rate w) where
    -- An instant is not before its cell, and a sample before the end of it.
    between :
        (k : ℕ)
        → k ≤ 8
        → ((2 * k + 2) * (baud * w) ≤ (3 + 2 * k) * rate)
          × ((3 + 2 * k) * rate + 2 * baud ≤ (2 * k + 4) * (baud * w))
    between zero few = (omega (arith, near.not_fast), omega (arith, near.not_slow, near.begins))
    between (suc zero) few =
        (omega (arith, near.not_fast), omega (arith, near.not_slow, near.begins))
    between (suc (suc zero)) few =
        (omega (arith, near.not_fast), omega (arith, near.not_slow, near.begins))
    between (suc (suc (suc zero))) few =
        (omega (arith, near.not_fast), omega (arith, near.not_slow, near.begins))
    between (suc (suc (suc (suc zero)))) few =
        (omega (arith, near.not_fast), omega (arith, near.not_slow, near.begins))
    between (suc (suc (suc (suc (suc zero))))) few =
        (omega (arith, near.not_fast), omega (arith, near.not_slow, near.begins))
    between (suc (suc (suc (suc (suc (suc zero)))))) few =
        (omega (arith, near.not_fast), omega (arith, near.not_slow, near.begins))
    between (suc (suc (suc (suc (suc (suc (suc zero))))))) few =
        (omega (arith, near.not_fast), omega (arith, near.not_slow, near.begins))
    between (suc (suc (suc (suc (suc (suc (suc (suc zero)))))))) few =
        (omega (arith, near.not_fast), omega (arith, near.not_slow, near.begins))
    between (suc (suc (suc (suc (suc (suc (suc (suc (suc k))))))))) few =
        absurd (omega (arith, few))

    sample_within :
        (start k : ℕ)
        → k ≤ 8
        → (edge (uart_clock rate) w start (suc k) ≤ sample_of start k)
          × (sample_of start k < edge (uart_clock rate) w start (suc (suc k)))
    sample_within start k few =
        let (from, to) = between k few in
        let at = instant_lem start k in
        let low = edge_lem start (suc k) in
        let high = edge_lem start (suc (suc k)) in
        let here : (2 * k + 2) * (baud * w) ≡ 2 * baud * (suc k * w) = grind arith in
        let next : (2 * k + 4) * (baud * w) ≡ 2 * baud * (suc (suc k) * w) = grind arith in
        (omega (arith, from, at, low, here), omega (arith, to, at, high, next))

    uart_clock-IsPrecise : IsPrecise (uart_clock rate) w
    uart_clock-IsPrecise = record {
      tick = sample_of;
      reaches = sample_reached;
      within = sample_within;
    }

    -- A capture at a rate for which the line's bits have w samples each, nearly as many as rate /
    -- 921600: a new decoder finds the bytes that were sent on its channel, each once and in order,
    -- with the sample at which its start bit begins, whatever the other channels do and however long
    -- the line is high between them.
    pub samples-sent_bytes :
        (channel : ℕ) (ss : List (AnySent (uart_clock rate) w channel))
        → (samples
            (uart_clock rate)
            (new_decoder (uart_clock rate) channel)
            0
            (all_samples (uart_clock rate) w channel ss)).1
          ≡ sent_bytes (uart_clock rate) w channel 0 ss
    samples-sent_bytes channel ss =
        precise_samples (uart_clock rate) w uart_clock-IsPrecise channel ss
