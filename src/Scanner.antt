-- ===== src/Scanner.antt =====
-- The shape of the two receive loops (`Decoder::push` in tools/te-rs/src/protocol.rs and in
-- tools/cor24-debug-adapter/src/main.rs): a buffer, and a loop whose every turn either breaks or
-- drains bytes from the front and goes on. `Laws` says what such a loop promises its client.
pub mod Laws
use sw_tos.Base.{ℕ, zero, suc, List, [], ◌∷◌, ◌++◌, Bytes, length}

-- One turn: `break` with the buffer that is left, or `continue` with what was put out.
pub data Turn {ℓ} (O : Type ℓ) : Type ℓ where
  stop : Bytes → Turn O
  next : List O → Bytes → Turn O

-- What a loop put out, and the buffer that it left.
pub record Scanned {ℓ} (O : Type ℓ) : Type ℓ where
  pub items : List O
  pub rest : Bytes

module _ {ℓ} {O : Type ℓ} where
  abbrev pub prepend : List O → Scanned O → Scanned O
  prepend os s = record { items = os ++ s.items; rest = s.rest }

  -- The loop, with fuel for its turns.
  unfoldable pub drain : (Bytes → Turn O) → ℕ → Bytes → Scanned O
  drain step zero b = record { items = []; rest = b }
  drain step (suc fuel) b = elim (step b) [
    | stop r ↦ record { items = []; rest = r }
    | next os r ↦ prepend os (drain step fuel r)
  ]

  -- A turn that goes on drains a byte or more, so one more turn than bytes is enough.
  unfoldable pub scan : (Bytes → Turn O) → Bytes → Scanned O
  unfolding drain
  scan step b = drain step (suc (length b)) b
