-- ===== src/Scanner/Laws.antt =====
-- What a receive loop promises its client: it ends by its own `break`, and the way in which the
-- stream is cut into reads does not change what is put out.
use sw_tos.Base.{
  ℕ, zero, suc, ◌<◌, List, [], ◌++◌, append_assoc, append-nil, ◌≡◌, refl, ap, sym, ◌∙◌, ◌⊎◌, inl,
  inr, arith, Bytes, length, All, All-append,
}
use sw_tos.Scanner.{Turn, stop, next, Scanned, prepend, drain, scan}

-- What a component proves of its turn to use the loop.
pub record IsScanner {ℓ} {O : Type ℓ} (step : Bytes → Turn O) : Type ℓ where
  pub shrinks : (b : Bytes) {os : List O} {r : Bytes} → step b ≡ next os r → length r < length b
  -- A turn that goes on looks at no byte that may still come.
  pub next_extends :
      (b more : Bytes) {os : List O} {r : Bytes}
      → step b ≡ next os r
      → step (b ++ more) ≡ next os (r ++ more)
  -- What a break leaves is all that later turns need.
  pub stop_extends :
      (b more : Bytes) {r : Bytes} → step b ≡ stop r → step (b ++ more) ≡ step (r ++ more)

module _ {ℓ} {O : Type ℓ} where
  pub Turn-cases :
      (t : Turn O) → ((r : Bytes) × (t ≡ stop r)) ⊎ ((os : List O) × (r : Bytes) × (t ≡ next os r))
  Turn-cases (stop r) = inl (r, refl)
  Turn-cases (next os r) = inr (os, r, refl)

  pub prepend-prepend :
      (xs ys : List O) (s : Scanned O) → prepend xs (prepend ys s) ≡ prepend (xs ++ ys) s
  prepend-prepend xs ys s =
      ap (λ (os : List O). record { items = os; rest = s.rest }) (sym (append_assoc xs ys s.items))

module _ {ℓ} {O : Type ℓ} {step : Bytes → Turn O} (law : IsScanner step) where
  -- Fuel above the length of the buffer never runs out.
  drain_fuel : (f g : ℕ) (b : Bytes) → length b < f → length b < g → drain step f b ≡ drain step g b
  unfolding drain
  drain_fuel zero g b h k = absurd (omega arith)
  drain_fuel (suc f) zero b h k = absurd (omega arith)
  drain_fuel (suc f) (suc g) b h k = elim (Turn-cases (step b)) [
    | inl (r, e) ↦ rw (e, drain)
    | inr (os, r, e) ↦
        let shorter = law.shrinks b e in
        rw (e, drain) (ap (prepend os) (drain_fuel f g r (omega arith) (omega arith)))
  ]

  -- The loop's own equation, in which no fuel is left.
  pub scan_stop :
      (b : Bytes) {r : Bytes} → step b ≡ stop r → scan step b ≡ record { items = []; rest = r }
  unfolding scan
  scan_stop b e = rw (e, drain)

  pub scan_next :
      (b : Bytes) {os : List O} {r : Bytes}
      → step b ≡ next os r
      → scan step b ≡ prepend os (scan step r)
  unfolding scan
  scan_next b {os} {r} e =
      let shorter = law.shrinks b e in
      rw (e, drain)
        (ap (prepend os) (drain_fuel (length b) (suc (length r)) r shorter (omega arith)))

  -- Induction over the turns of the loop.
  pub scan_induction {κ} :
      (P : Bytes → Type κ)
      → ((b r : Bytes) → step b ≡ stop r → P b)
      → ((b : Bytes) (os : List O) (r : Bytes) → step b ≡ next os r → P r → P b)
      → (b : Bytes) → P b
  scan_induction P at_stop at_next b = go (suc (length b)) b (omega arith)
    where
      go : (f : ℕ) (b : Bytes) → length b < f → P b
      go zero b h = absurd (omega arith)
      go (suc f) b h = elim (Turn-cases (step b)) [
        | inl (r, e) ↦ at_stop b r e
        | inr (os, r, e) ↦ let shorter = law.shrinks b e in at_next b os r e (go f r (omega arith))
      ]

  scan_of_step : (a b : Bytes) → step a ≡ step b → scan step a ≡ scan step b
  scan_of_step a b h = elim (Turn-cases (step b)) [
    | inl (r, e) ↦ scan_stop a (h ∙ e) ∙ sym (scan_stop b e)
    | inr (os, r, e) ↦ scan_next a (h ∙ e) ∙ sym (scan_next b e)
  ]

  -- The bytes of a read appended to what the last one left give what one read of all would.
  pub scan-append :
      (b more : Bytes)
      → scan step (b ++ more) ≡ prepend (scan step b).items (scan step ((scan step b).rest ++ more))
  scan-append b more =
      scan_induction
        (λ b.
          scan step (b ++ more)
          ≡ prepend (scan step b).items (scan step ((scan step b).rest ++ more)))
        (λ b r e.
          rw (scan_stop b e) (scan_of_step (b ++ more) (r ++ more) (law.stop_extends b more e)))
        (λ b os r e ih.
          scan_next (b ++ more) (law.next_extends b more e)
          ∙ ap (prepend os) ih
          ∙ prepend-prepend os (scan step r).items (scan step ((scan step r).rest ++ more))
          ∙ rw (scan_next b e))
        b

  stop_again : (b : Bytes) {r : Bytes} → step b ≡ stop r → step r ≡ stop r
  stop_again b {r} e = sym (rw (append-nil b, append-nil r) at (law.stop_extends b [] e)) ∙ e

  -- The loop ends by its own `break`: on what it left, the next turn breaks at once.
  pub scan_settles : (b : Bytes) → step (scan step b).rest ≡ stop (scan step b).rest
  scan_settles =
      scan_induction (λ b. step (scan step b).rest ≡ stop (scan step b).rest)
        (λ b r e. rw (scan_stop b e) (stop_again b e)) (λ b os r e ih. rw (scan_next b e) ih)

  -- What holds of the items of each turn holds of all items.
  pub scan-All {κ} :
      (P : O → Type κ)
      → ((b : Bytes) (os : List O) (r : Bytes) → step b ≡ next os r → All P os)
      → (b : Bytes) → All P (scan step b).items
  scan-All P each =
      scan_induction (λ b. All P (scan step b).items) (λ b r e. rw (scan_stop b e) tt)
        (λ b os r e ih. rw (scan_next b e) (All-append P os (scan step r).items (each b os r e) ih))
