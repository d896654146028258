-- ===== src/Report/Cells.antt =====
-- How the decoder of tools/te-rs/src/bin/sr-report.rs reads the cells of a byte: the start bit, the
-- bits and the stop bit.
use sw_tos.Base.{
  ℕ, zero, suc, ◌+◌, ◌-◌, ◌≤◌, ◌<◌, List, [], ◌∷◌, ◌++◌, Bool, true, false, leb, if◌then◌else◌, ◌≡◌,
  refl, subst, sym, arith, Bytes, length, length-append, length-take, length-drop, take, drop,
  get_or, split_at, All, All-split,
}
use sw_tos.Report.Bits.{gathered}
use sw_tos.Report.Waveform.{Holds, busy, idle, samples-append, waits, cell, stop_cell}
use sw_tos.Report.{Clock, level_of, with_bit, sample, samples}

-- The samples of some bits, and their levels.
abbrev pub wires : List (Bool × Bytes) → Bytes
wires [] = []
wires ((level, xs) ∷ cs) = xs ++ wires cs

abbrev pub levels : List (Bool × Bytes) → List Bool
levels [] = []
levels ((level, xs) ∷ cs) = level ∷ levels cs

module _ {F : Type 0} (clock : Clock F) (w : ℕ) where
  -- The instants of a byte that begins at a sample, and where the cells of its bits begin: the first
  -- is the start bit.
  abbrev pub instant : ℕ → ℕ → F
  instant start zero = clock.first start
  instant start (suc k) = clock.later (instant start k)

  abbrev pub edge : ℕ → ℕ → ℕ
  edge start zero = start
  edge start (suc k) = edge start k + w

  -- The numbers are precise enough: each instant is reached at a sample of its cell.
  pub record IsPrecise : Type 0 where
    pub tick : ℕ → ℕ → ℕ
    pub reaches : (start k i : ℕ) → clock.reached i (instant start k) ≡ leb (tick start k) i
    pub within :
        (start k : ℕ)
        → k ≤ 8
        → (edge start (suc k) ≤ tick start k) × (tick start k < edge start (suc (suc k)))

  module _ (precise : IsPrecise) (channel start : ℕ) where
    -- The cell of a bit.
    cell_at :
        (k byte : ℕ) (q level : Bool) (xs : Bytes)
        → k < 8
        → length xs ≡ w
        → Holds clock channel level xs
        → (q' : Bool) × (samples clock
              (busy clock channel (instant start k) k byte start q)
              (edge start (suc k))
              xs
            ≡ (
              busy clock channel
                  (instant start (suc k))
                  (suc k)
                  (if level then with_bit byte k else byte)
                  start
                  q',
              [],
            ))
    cell_at k byte q level xs few size same =
        let n = precise.tick start k - edge start (suc k) in
        let whole = split_at n xs 0 (omega (arith, precise.within start k (omega arith), size)) in
        let (before, (here, behind)) =
          All-split (λ packed. level_of channel packed ≡ level) (take n xs)
            (get_or xs n 0 ∷ drop (suc n) xs)
            (subst (Holds clock channel level) (sym whole) same) in
        let early = length-take n xs in
        let late = length-drop (suc n) xs in
        let inside = precise.within start k (omega arith) in
        let next_inside = precise.within start (suc k) (omega arith) in
        subst
          (λ l.
            (q' : Bool) × (samples clock (busy clock channel (instant start k) k byte start q)
                (edge start (suc k)) l
              ≡ (
                busy clock channel (instant start (suc k)) (suc k)
                    (if level then with_bit byte k else byte) start q',
                [],
              )))
          whole
          (cell clock channel start (instant start k) k byte q (edge start (suc k)) level
            (take n xs) (get_or xs n 0) (drop (suc n) xs) few
            (λ i low. ground (arith, precise.reaches start k i, early, inside, size, low))
            (ground (
              arith,
              precise.reaches start k (edge start (suc k) + length (take n xs)),
              early,
              inside,
              size,
            ))
            (λ i low.
              ground (
                arith,
                precise.reaches start (suc k) i,
                early,
                late,
                inside,
                next_inside,
                size,
                low,
              ))
            before here behind)

    -- The cells of some bits, each with its level.
    abbrev pub IsCell : Bool × Bytes → Type 0
    IsCell (level, xs) = (length xs ≡ w) × Holds clock channel level xs

    cells_at :
        (cs : List (Bool × Bytes)) (k byte : ℕ) (q : Bool)
        → k + length cs ≡ 8
        → All IsCell cs
        → (q' : Bool) × (samples clock
              (busy clock channel (instant start k) k byte start q)
              (edge start (suc k))
              (wires cs)
            ≡ (busy clock channel (instant start 8) 8 (gathered k (levels cs) byte) start q', []))
    cells_at [] k byte q e h =
        let last : k ≡ 8 = omega (arith, e) in (q, rw last (unfold samples in refl))
    cells_at ((level, xs) ∷ cs) k byte q e (here, there) =
        let (q1, first) = cell_at k byte q level xs (omega (arith, e)) here.0 here.1 in
        let (q2, rest) =
          cells_at cs (suc k) (if level then with_bit byte k else byte) q1 (omega (arith, e))
            there in
        let next : edge start (suc k) + length xs ≡ edge start (suc (suc k)) =
          omega (arith, here.0) in
        (
          q2,
          rw
              (
                samples-append clock (busy clock channel (instant start k) k byte start q)
                    (edge start (suc k)) xs (wires cs),
                first,
                next,
                rest,
              )
              refl,
        )

    stop_at :
        (byte : ℕ) (q : Bool) (xs : Bytes)
        → length xs ≡ w
        → Holds clock channel true xs
        → samples clock (busy clock channel (instant start 8) 8 byte start q) (edge start 9) xs
          ≡ (idle clock channel (instant start 8) 8 byte start true, (start, byte) ∷ [])
    stop_at byte q xs size same =
        let n = precise.tick start 8 - edge start 9 in
        let whole = split_at n xs 0 (omega (arith, precise.within start 8 (omega arith), size)) in
        let (before, (here, behind)) =
          All-split (λ packed. level_of channel packed ≡ true) (take n xs)
            (get_or xs n 0 ∷ drop (suc n) xs) (subst (Holds clock channel true) (sym whole) same) in
        let early = length-take n xs in
        let inside = precise.within start 8 (omega arith) in
        subst
          (λ l.
            samples clock (busy clock channel (instant start 8) 8 byte start q) (edge start 9) l
            ≡ (idle clock channel (instant start 8) 8 byte start true, (start, byte) ∷ []))
          whole
          (stop_cell clock channel start (instant start 8) byte q (edge start 9) (take n xs)
            (get_or xs n 0) (drop (suc n) xs)
            (λ i low. ground (arith, precise.reaches start 8 i, early, inside, size, low))
            (ground (
              arith,
              precise.reaches start 8 (edge start 9 + length (take n xs)),
              early,
              inside,
              size,
            ))
            before here behind)

    start_at :
        (next : F) (bit byte began : ℕ) (xs : Bytes)
        → length xs ≡ w
        → Holds clock channel false xs
        → (q : Bool) × (samples clock (idle clock channel next bit byte began true) start xs
            ≡ (busy clock channel (instant start 0) 0 0 start q, []))
    unfolding samples sample
    start_at next bit byte began [] size same =
        absurd (omega (arith, precise.within start 0 (omega arith), size))
    start_at next bit byte began (x ∷ xs) size (here, there) =
        let (q, rest) =
          waits clock channel start (instant start 0) 0 0 false (suc start) false xs
            (λ i low.
              ground
                (arith, precise.reaches start 0 i, precise.within start 0 (omega arith), size, low))
            there in
        (q, rw (here, rest) refl)

    edge-wires :
        (cs : List (Bool × Bytes)) (k : ℕ)
        → k + length cs ≡ 8
        → All IsCell cs
        → edge start (suc k) + length (wires cs) ≡ edge start 9
    edge-wires [] k e h = let last : k ≡ 8 = omega (arith, e) in rw last (omega arith)
    edge-wires ((level, xs) ∷ cs) k e (here, there) =
        let rest = edge-wires cs (suc k) (omega (arith, e)) there in
        omega (arith, rest, length-append xs (wires cs), here.0)

    -- A start bit, eight bits and a stop bit.
    pub byte_at :
        (next : F) (bit byte began : ℕ) (low : Bytes) (cs : List (Bool × Bytes)) (high : Bytes)
        → (length low ≡ w) × Holds clock channel false low
        → (length cs ≡ 8) × All IsCell cs
        → (length high ≡ w) × Holds clock channel true high
        → samples clock
            (idle clock channel next bit byte began true)
            start
            (low ++ (wires cs ++ high))
          ≡ (
            idle clock channel (instant start 8) 8 (gathered 0 (levels cs) 0) start true,
            (start, gathered 0 (levels cs) 0) ∷ [],
          )
    byte_at next bit byte began low cs high hl hc hh =
        let (q0, first) = start_at next bit byte began low hl.0 hl.1 in
        let (q1, middle) = cells_at cs 0 0 q0 (omega (arith, hc.0)) hc.1 in
        let last = stop_at (gathered 0 (levels cs) 0) q1 high hh.0 hh.1 in
        let one : start + length low ≡ edge start 1 = omega (arith, hl.0) in
        let nine : edge start 1 + length (wires cs) ≡ edge start 9 =
          edge-wires cs 0 (omega (arith, hc.0)) hc.1 in
        rw
          (
            samples-append clock (idle clock channel next bit byte began true) start low
                (wires cs ++ high),
            first,
            one,
            samples-append clock (busy clock channel (instant start 0) 0 0 start q0) (edge start 1)
                (wires cs) high,
            middle,
            nine,
            last,
          )
          refl
