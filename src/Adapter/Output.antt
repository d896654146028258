-- ===== src/Adapter/Output.antt =====
-- `write_all_retrying` of tools/cor24-debug-adapter/src/main.rs, over any writer: the
-- pseudo-terminal and the system's `write` are parameters.
use sw_tos.Base.{
  ℕ, zero, suc, ◌+◌, ◌<◌, ◌≤◌, [], ◌∷◌, ◌++◌, append_assoc, append-nil, Option, none, some, ◌≡◌,
  refl, sym, ◌∙◌, arith, Result, ok, err, Bytes, length, take, drop, take-append-drop, length-drop,
}

-- What one `write` returns; `again` is `WouldBlock` or `Interrupted`.
pub data Written (E : Type 0) : Type 0 where
  wrote : ℕ → Written E
  again : Written E
  failed : E → Written E

-- The two errors that end the loop.
pub data Failure (E : Type 0) : Type 0 where
  accepted_nothing : Failure E
  writer : E → Failure E

module _ {S E : Type 0} (write : S → Bytes → S × Written E) where
  -- The loop, with fuel for its calls of `write`: `none` if it runs out.
  unfoldable pub write_all_retrying : ℕ → S → Bytes → S × Option (Result (Unit {0}) (Failure E))
  write_all_retrying fuel s [] = (s, some (ok tt))
  write_all_retrying zero s (b ∷ bs) = (s, none)
  write_all_retrying (suc fuel) s (b ∷ bs) =
      let (s', result) = write s (b ∷ bs) in
      elim result [
        | wrote zero ↦ (s', some (err accepted_nothing))
        | wrote (suc n) ↦ write_all_retrying fuel s' (drop (suc n) (b ∷ bs))
        | again ↦ write_all_retrying fuel s' (b ∷ bs)
        | failed e ↦ (s', some (err (writer e)))
      ]

  module _ (taken : S → Bytes) (patience : S → ℕ) where
    -- What a call of `write` documents: it takes a prefix, of the length that it returns, and
    -- nothing when it fails. A writer that is not gone refuses only so many times.
    abbrev pub Honest : S → Bytes → S × Written E → Type 0
    Honest s b (s', wrote n) =
        (n ≤ length b) × (taken s' ≡ taken s ++ take n b) × (patience s' ≤ patience s)
    Honest s b (s', again) = (taken s' ≡ taken s) × (patience s' < patience s)
    Honest s b (s', failed e) = taken s' ≡ taken s

    -- The error is the answer of a call of `write`, for the bytes that were left: a call that took
    -- none of them, or one that failed. A refusal is no error.
    abbrev pub Caused : S → Bytes → Failure E → Type 0
    Caused s' rest accepted_nothing = (s : S) × (write s rest ≡ (s', wrote 0))
    Caused s' rest (writer e) = (s : S) × (write s rest ≡ (s', failed e))

    -- The loop ended: with everything taken, or with an error that a call of `write` caused, and
    -- all taken but what was left at that call.
    abbrev pub Ended : S → Bytes → S × Option (Result (Unit {0}) (Failure E)) → Type 0
    Ended s b (s', none) = ⊥
    Ended s b (s', some (ok done)) = taken s' ≡ taken s ++ b
    Ended s b (s', some (err e)) =
        (rest : Bytes) × (taken s' ++ rest ≡ taken s ++ b) × Caused s' rest e

    joined :
        (s s' : S) (b : Bytes) (n : ℕ)
        → taken s' ≡ taken s ++ take n b
        → taken s' ++ drop n b ≡ taken s ++ b
    joined s s' b n e = rw (e, append_assoc (taken s) (take n b) (drop n b), take-append-drop n b)

    -- What holds of the rest holds of the whole, when the part before it has been taken.
    continued :
        (s s' : S) (b : Bytes) (n : ℕ)
        → taken s' ≡ taken s ++ take n b
        → (r : S × Option (Result (Unit {0}) (Failure E))) → Ended s' (drop n b) r
        → Ended s b r
    continued s s' b n e (s'', none) h = h
    continued s s' b n e (s'', some (ok done)) h = h ∙ joined s s' b n e
    continued s s' b n e (s'', some (err x)) h = (h.0, h.1 ∙ joined s s' b n e, h.2)

    -- What the loop makes of one call's result.
    abbrev after_call : ℕ → Bytes → S × Written E → S × Option (Result (Unit {0}) (Failure E))
    after_call fuel b r =
        let (s', result) = r in
        elim result [
          | wrote zero ↦ (s', some (err accepted_nothing))
          | wrote (suc n) ↦ write_all_retrying fuel s' (drop (suc n) b)
          | again ↦ write_all_retrying fuel s' b
          | failed e ↦ (s', some (err (writer e)))
        ]

    after_call-Ended :
        (fuel : ℕ) (s : S) (b : Bytes) (r : S × Written E)
        → write s b ≡ r
        → Honest s b r
        → ((s' : S) (rest : Bytes)
            → length rest + patience s' ≤ fuel
            → Ended s' rest (write_all_retrying fuel s' rest))
        → length b + patience s ≤ suc fuel
        → Ended s b (after_call fuel b r)
    after_call-Ended fuel s b (s', wrote zero) call k ih h =
        (b, rw (k.1, append-nil (taken s)), (s, call))
    after_call-Ended fuel s b (s', wrote (suc n)) call k ih h =
        continued s s' b (suc n) k.1 (write_all_retrying fuel s' (drop (suc n) b))
          (ih s' (drop (suc n) b) (omega (arith, length-drop (suc n) b, k.2, k.0)))
    after_call-Ended fuel s b (s', again) call k ih h =
        continued s s' b 0 (k.0 ∙ sym (append-nil (taken s))) (write_all_retrying fuel s' b)
          (ih s' b (omega (arith, k.1)))
    after_call-Ended fuel s b (s', failed x) call k ih h = (b, rw k, (s, call))

    -- With a writer that takes prefixes and refuses only so many times, and with fuel for every
    -- byte and every refusal, the loop ends. It has written every byte once and in order; or the
    -- writer itself took none of the bytes that were left, or failed at them, and the loop reports
    -- that error and has written the bytes before them. A refusal is retried, never reported.
    pub write_all_retrying-Ended :
        ((s : S) (b : Bytes) → Honest s b (write s b))
        → (fuel : ℕ) (s : S) (b : Bytes) → length b + patience s ≤ fuel
        → Ended s b (write_all_retrying fuel s b)
    unfolding write_all_retrying
    write_all_retrying-Ended honest fuel s [] h = sym (append-nil (taken s))
    write_all_retrying-Ended honest zero s (b ∷ bs) h = absurd (omega arith)
    write_all_retrying-Ended honest (suc fuel) s (b ∷ bs) h =
        after_call-Ended fuel s (b ∷ bs) (write s (b ∷ bs)) refl (honest s (b ∷ bs))
          (write_all_retrying-Ended honest fuel) h
