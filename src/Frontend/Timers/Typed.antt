-- ===== src/Frontend/Timers/Typed.antt =====
-- What is typed on the shell's behalf stands in the serial queue, in order, among what else the
-- passes of `run_windows` in tools/te-rs/src/main.rs put there.
use mathlib.Core.Option
use sw_tos.Base.{ℕ, ◌+◌, ◌≤◌, List, [], ◌∷◌, ◌++◌, Option, none, some, ◌≡◌, Bytes, length}
use sw_tos.Frontend.Session.{Session}
use sw_tos.Frontend.Timers.Delivered.{key_frame}
use sw_tos.Frontend.Timers.{Clocks}
use sw_tos.Protocol.{frame_bytes}

-- One character is typed: its frame stands behind the queue, alone or with bytes about it.
abbrev Types : ℕ → Session → ℕ → Bytes → Option Session → Type 0
Types n s byte bytes none = ⊥
Types n s byte bytes (some t) =
    (t.connection ≡ s.connection)
    × (t.injected ≡ bytes)
    × (before : Bytes) × (after : Bytes) × (t.serial_output
        ≡ s.serial_output ++ (before ++ (frame_bytes (key_frame byte) ++ after)))
    × (length before + length after ≤ n)

-- The frames of some characters stand in a queue in order, with other bytes about them.
abbrev pub Holds : Bytes → Bytes → Type 0
Holds [] out = Unit
Holds (byte ∷ bytes) out =
    (before : Bytes) × (after : Bytes) × (out ≡ before ++ (frame_bytes (key_frame byte) ++ after))
    × Holds bytes after

abbrev TypesAll : List Clocks → Bytes → Session → Option Session → Type 0
TypesAll cs text s o =
    (t : Session) × (o ≡ some t)
    × (t.injected ≡ [])
    × (out : Bytes) × (t.serial_output ≡ s.serial_output ++ out)
    × Holds text out
