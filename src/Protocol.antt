-- ===== src/Protocol.antt =====
-- The multiplexed transport, version 1: frames and their bytes
-- (tools/te-rs/src/protocol.rs, from the top to `DecodeError`, and `checksum`).
-- A `u8` is a number below 256, and a `u16` one below 65536.
pub mod Decoder
pub mod Negotiator
pub mod Connection
use sw_tos.Base.{
  ℕ, ◌<◌, ◌≤◌, ◌≡◌, refl, arith, IsBytes, ◌==◌, ◌+◌, ◌/◌, ◌%◌, List, [], ◌∷◌, ◌++◌, ◌||◌, ltb,
  if◌then◌else◌, Result, ok, err, Bytes, length, drop,
}

abbrev pub sync : Bytes
sync = 0xa5 ∷ 0x5a ∷ []

abbrev pub version : ℕ
version = 1

abbrev pub max_payload : ℕ
max_payload = 1024

pub data FrameType : Type 0 where
  tty_input tty_output channel_open channel_close channel_title : FrameType
  uptime wall_clock resource_snapshot debug_request debug_response : FrameType
  protocol_error hello hello_ack : FrameType

pub data EncodeError : Type 0 where
  payload_too_long : ℕ → EncodeError

pub data DecodeError : Type 0 where
  bad_version : ℕ → DecodeError
  unknown_type : ℕ → DecodeError
  payload_too_long : ℕ → DecodeError
  bad_checksum : DecodeError

-- `kind as u8`.
unfoldable pub code_of : FrameType → ℕ
code_of tty_input = 1
code_of tty_output = 2
code_of channel_open = 3
code_of channel_close = 4
code_of channel_title = 5
code_of uptime = 6
code_of wall_clock = 7
code_of resource_snapshot = 8
code_of debug_request = 9
code_of debug_response = 10
code_of protocol_error = 11
code_of hello = 12
code_of hello_ack = 13

-- `FrameType::try_from`.
unfoldable pub try_from : ℕ → Result FrameType DecodeError
try_from value =
    if value == 1
    then ok tty_input
    else if value == 2
    then ok tty_output
    else if value == 3
    then ok channel_open
    else if value == 4
    then ok channel_close
    else if value == 5
    then ok channel_title
    else if value == 6
    then ok uptime
    else if value == 7
    then ok wall_clock
    else if value == 8
    then ok resource_snapshot
    else if value == 9
    then ok debug_request
    else if value == 10
    then ok debug_response
    else if value == 11
    then ok protocol_error
    else if value == 12
    then ok hello
    else if value == 13
    then ok hello_ack
    else err (unknown_type value)

pub record Frame : Type 0 where
  pub kind : FrameType
  pub channel : ℕ
  pub payload : Bytes

-- `checksum`: a sum that wraps at 256.
checksum_from : ℕ → Bytes → ℕ
checksum_from sum [] = sum
checksum_from sum (byte ∷ bytes) = checksum_from ((sum + byte) % 256) bytes

unfoldable pub checksum : Bytes → ℕ
unfolding checksum_from
checksum = checksum_from 0

-- The bytes of a frame whose length has been accepted: `length` is the `u16` of the code.
unfoldable pub frame_bytes : Frame → Bytes
unfolding code_of checksum
frame_bytes f =
    let size = length f.payload % 65536 in
    let header = version ∷ code_of f.kind ∷ f.channel ∷ (size % 256) ∷ (size / 256 % 256) ∷ [] in
    let bytes = sync ++ (header ++ f.payload) in bytes ++ checksum (drop 2 bytes) ∷ []

-- `Frame::encode`.
unfoldable pub encode : Frame → Result Bytes EncodeError
unfolding frame_bytes
encode f =
    if ltb max_payload (length f.payload) || ltb 65535 (length f.payload)
    then err (EncodeError.payload_too_long (length f.payload))
    else ok (frame_bytes f)

-- A frame that the wire can hold: its fields are `u8`s and its payload is short enough.
pub record IsFrame (f : Frame) : Type 0 where
  pub channel_byte : f.channel < 256
  pub payload_bytes : IsBytes f.payload
  pub payload_short : length f.payload ≤ max_payload

checksum_from-lt : (bs : Bytes) (sum : ℕ) → sum < 256 → checksum_from sum bs < 256
unfolding checksum_from
checksum_from-lt [] sum h = h
checksum_from-lt (b ∷ bs) sum h = checksum_from-lt bs ((sum + b) % 256) (omega arith)

pub checksum-lt : (bs : Bytes) → checksum bs < 256
unfolding checksum
checksum-lt bs = checksum_from-lt bs 0 (omega arith)

-- The codes are read back, and only they are read.
pub try_from-code_of : (kind : FrameType) → try_from (code_of kind) ≡ ok kind
unfolding try_from code_of
try_from-code_of tty_input = refl
try_from-code_of _ = refl

pub code_of-try_from : (n : ℕ) {kind : FrameType} → try_from n ≡ ok kind → code_of kind ≡ n
unfolding try_from code_of
code_of-try_from n {kind} h = ground arith

-- A frame is encoded exactly when its payload is short enough.
pub encode_short : (f : Frame) → length f.payload ≤ max_payload → encode f ≡ ok (frame_bytes f)
unfolding encode
encode_short f h = ground arith
