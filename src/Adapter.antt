-- ===== src/Adapter.antt =====
-- The wire of the debug adapter: tools/cor24-debug-adapter/src/main.rs.
pub mod Decoder
pub mod Output
pub mod Emulator
use sw_tos.Base.{ℕ, ◌+◌, ◌*◌, ◌%◌, ◌/◌, [], ◌∷◌, ◌++◌, Bool, ◌||◌, ◌==◌, Bytes, length, drop}
use sw_tos.Protocol.{sync, checksum}

abbrev pub raw_uart : ℕ
raw_uart = 0xfe

abbrev pub tty_input : ℕ
tty_input = 1

abbrev pub uptime : ℕ
uptime = 6

abbrev pub wall_clock : ℕ
wall_clock = 7

abbrev pub resource_snapshot : ℕ
resource_snapshot = 8

-- The adapter's `Frame`: its kind is the byte on the wire.
pub record Frame : Type 0 where
  pub kind : ℕ
  pub channel : ℕ
  pub payload : Bytes

-- `encoded_frame`, which `write_frame` repeats. The fold of the checksum is the frontend's.
unfoldable pub encoded_frame : ℕ → ℕ → Bytes → Bytes
unfolding checksum
encoded_frame kind channel payload =
    let size = length payload % 65536 in
    let header = sync ++ 1 ∷ kind ∷ channel ∷ (size % 256) ∷ (size / 256 % 256) ∷ [] in
    let bytes = header ++ payload in bytes ++ checksum (drop 2 bytes) ∷ []

-- `put24`, on a `u32`, and `u24`.
unfoldable pub put24 : Bytes → ℕ → Bytes
put24 out value = out ++ (value % 256) ∷ (value / 256 % 256) ∷ (value / 65536 % 256) ∷ []

unfoldable pub u24 : ℕ → ℕ → ℕ → ℕ
u24 a b c = a + b * 256 + c * 65536

unfoldable pub target_frame : ℕ → Bool
target_frame kind =
    kind == tty_input || kind == uptime || kind == wall_clock || kind == resource_snapshot
