-- ===== src/Frontend/Terminal/Prompt.antt =====
-- The prompt of the menu, in the plain terminal of tools/te-rs/src/main.rs: however the output is
-- cut into reads, the prompt is found exactly if it is in the output.
use mathlib.Core.Option
use sw_tos.Base.{
  ℕ, suc, ◌-◌, ◌≤◌, ◌<◌, List, [], ◌∷◌, ◌++◌, append_assoc, append-nil, concat, Option, none, some,
  Bool, true, false, ◌||◌, leb, if◌then◌else◌, ◌≡◌, refl, sym, ap, ◌∙◌, arith, Bytes, length,
  length-append, drop, starts_with, find_window, starts_with-append, starts_with-append_false,
  starts_with-length, find_window_here, find_window_later, Bool-cases, inl, inr,
}
use sw_tos.Format.{contains}
use sw_tos.Frontend.Terminal.{Terminal, choice, kept, watch_prompt, serial_read}

found : Option ℕ → Bool
found none = false
found (some at) = true

contains-found : (s needle : Bytes) → contains s needle ≡ found (find_window s needle)
unfolding contains found
contains-found s needle = by_cases (find_window s needle)
  where
    by_cases : (r : Option ℕ) → (elim r [ none ↦ false | some at ↦ true ]) ≡ found r
    by_cases none = refl
    by_cases (some at) = refl

found_later : (r : Option ℕ) → found (Option.map suc r) ≡ found r
unfolding found
found_later none = refl
found_later (some at) = refl

contains-cons :
    (b : ℕ) (bs needle : Bytes)
    → contains (b ∷ bs) needle ≡ (starts_with (b ∷ bs) needle || contains bs needle)
contains-cons b bs needle = elim (Bool-cases (starts_with (b ∷ bs) needle)) [
  | inl e ↦
      rw (contains-found (b ∷ bs) needle, find_window_here b bs needle e, e) (unfold found in refl)
  | inr n ↦
      rw
        (
          contains-found (b ∷ bs) needle,
          contains-found bs needle,
          find_window_later b bs needle n,
          n,
        )
        (found_later (find_window bs needle))
]

contains-nil : (needle : Bytes) → contains [] needle ≡ false
unfolding contains find_window
contains-nil needle = refl

-- The last bytes of a text, one fewer than a needle has.
abbrev tail_for : Bytes → Bytes → Bytes
tail_for needle s = drop (length s - (length needle - 1)) s

or_swap : (x y z : Bool) → (x || (y || z)) ≡ (y || (x || z))
or_swap true true z = refl
or_swap true false z = refl
or_swap false y z = refl

or_false : (x : Bool) → (x || false) ≡ x
or_false true = refl
or_false false = refl

or_true : (x : Bool) → (x || true) ≡ true
or_true true = refl
or_true false = refl

module _ (needle : Bytes) (some_needle : 0 < length needle) where
  contains_short : (s : Bytes) → length s < length needle → contains s needle ≡ false
  contains_short [] h = contains-nil needle
  contains_short (b ∷ bs) h =
      rw (contains-cons b bs needle, contains_short bs (omega arith))
        (elim (Bool-cases (starts_with (b ∷ bs) needle)) [
          | inl e ↦ absurd (omega (arith, starts_with-length (b ∷ bs) needle e))
          | inr n ↦ rw n refl
        ])

  starts_same :
      (s more : Bytes)
      → length needle ≤ length s
      → starts_with (s ++ more) needle ≡ starts_with s needle
  starts_same s more h = elim (Bool-cases (starts_with s needle)) [
    | inl e ↦ rw e (starts_with-append s more needle e)
    | inr n ↦ rw n (starts_with-append_false s more needle h n)
  ]

  tail_short : (s : Bytes) → length s < length needle → tail_for needle s ≡ s
  tail_short s h =
      let zero_dropped : length s - (length needle - 1) ≡ 0 = omega arith in rw zero_dropped refl

  tail_long :
      (b : ℕ) (bs : Bytes)
      → length needle ≤ length (b ∷ bs)
      → tail_for needle (b ∷ bs) ≡ tail_for needle bs
  tail_long b bs h =
      let one_more : suc (length bs) - (length needle - 1) ≡ suc (length bs - (length needle - 1)) =
        omega arith in
      rw one_more refl

  -- The tail of what came before, with what comes, has the needle if the whole has it anew.
  contains-tail :
      (s more : Bytes)
      → (contains (tail_for needle s ++ more) needle || contains s needle)
        ≡ contains (s ++ more) needle
  contains-tail [] more =
      rw (tail_short [] (omega arith), contains-nil needle) (or_false (contains more needle))
  contains-tail (b ∷ bs) more = elim (Bool-cases (leb (length needle) (length (b ∷ bs)))) [
    | inl e ↦
        rw
          (
            tail_long b bs (ground arith),
            contains-cons b bs needle,
            contains-cons b (bs ++ more) needle,
            starts_same (b ∷ bs) more (ground arith),
            ← contains-tail bs more,
          )
          (or_swap (contains (tail_for needle bs ++ more) needle) (starts_with (b ∷ bs) needle)
            (contains bs needle))
    | inr n ↦
        rw (tail_short (b ∷ bs) (ground arith), contains_short (b ∷ bs) (ground arith))
          (or_false (contains (b ∷ (bs ++ more)) needle))
  ]

  tail-tail :
      (s more : Bytes) → tail_for needle (tail_for needle s ++ more) ≡ tail_for needle (s ++ more)
  tail-tail [] more = rw (tail_short [] (omega arith)) refl
  tail-tail (b ∷ bs) more = elim (Bool-cases (leb (length needle) (length (b ∷ bs)))) [
    | inl e ↦
        rw
          (
            tail_long b bs (ground arith),
            tail_long b (bs ++ more) (ground (arith, length-append bs more)),
          )
          (tail-tail bs more)
    | inr n ↦ rw (tail_short (b ∷ bs) (ground arith)) refl
  ]

-- Several reads of the serial port, one after another.
abbrev pub serial_reads : List Bytes → Terminal → Terminal
serial_reads [] t = t
serial_reads (bytes ∷ reads) t = serial_reads reads (serial_read false true bytes t)

-- What the terminal keeps of output, since a terminal that had kept nothing.
pub record Watched (output : Bytes) (t u : Terminal) : Type 0 where
  pub shown : u.tty ≡ t.tty ++ output
  pub prompted : u.menu_prompt ≡ (t.menu_prompt || contains output choice)
  pub clocked : u.time_mode ≡ (if contains output choice then none else t.time_mode)
  pub kept_tail : u.prompt_tail ≡ kept output

serial_read-Watched :
    (output bytes : Bytes) (t u : Terminal)
    → Watched output t u
    → Watched (output ++ bytes) t (serial_read false true bytes u)
unfolding serial_read watch_prompt
serial_read-Watched output bytes t u h =
    let found = contains-tail choice (omega arith) output bytes in
    let shown = ap (λ l. l ++ bytes) h.shown ∙ append_assoc t.tty output bytes in
    let tail = tail-tail choice (omega arith) output bytes in
    elim (Bool-cases (contains (kept output ++ bytes) choice)) [
      | inl e ↦
          let now : contains (u.prompt_tail ++ bytes) choice ≡ true = rw h.kept_tail e in
          let whole : contains (output ++ bytes) choice ≡ true = sym found ∙ rw e refl in
          rw now (record {
            shown = shown;
            prompted = rw whole (sym (or_true t.menu_prompt));
            clocked = rw whole refl;
            kept_tail = rw h.kept_tail tail;
          })
      | inr n ↦
          let now : contains (u.prompt_tail ++ bytes) choice ≡ false = rw h.kept_tail n in
          let whole : contains (output ++ bytes) choice ≡ contains output choice =
            sym found ∙ rw n refl in
          rw now (record {
            shown = shown;
            prompted = rw whole h.prompted;
            clocked = rw whole h.clocked;
            kept_tail = rw h.kept_tail tail;
          })
    ]

serial_reads-Watched :
    (reads : List Bytes) (output : Bytes) (t u : Terminal)
    → Watched output t u
    → Watched (output ++ concat reads) t (serial_reads reads u)
serial_reads-Watched [] output t u h = rw (append-nil output) h
serial_reads-Watched (bytes ∷ reads) output t u h =
    rw (← append_assoc output bytes (concat reads)) (
      serial_reads-Watched reads (output ++ bytes) t (serial_read false true bytes u)
        (serial_read-Watched output bytes t u h))

-- The output of a program without frames, cut into reads at any places: all of it is shown in order;
-- the menu's prompt is up if it was, or if `Choice: ` stands anywhere in the output, across reads
-- too; and the time service is stopped in that case only.
pub serial_reads-prompt :
    (reads : List Bytes) (t : Terminal)
    → t.prompt_tail ≡ []
    → Watched (concat reads) t (serial_reads reads t)
serial_reads-prompt reads t h = serial_reads-Watched reads [] t t (record {
  shown = sym (append-nil t.tty);
  prompted = rw (contains-nil choice) (sym (or_false t.menu_prompt));
  clocked = rw (contains-nil choice) refl;
  kept_tail = h;
})
