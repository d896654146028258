-- ===== src/Protocol/Decoder/Frames.antt =====
-- What one turn at a SYNC has read and drained: a frame whose bytes stood there, or one faulty byte.
use sw_tos.Base.{
  ℕ, suc, ◌+◌, ◌*◌, ◌%◌, ◌/◌, ◌<◌, ◌≤◌, true, ltb, List, [], ◌∷◌, ◌++◌, append_assoc, ◌≡◌, sym, ap,
  ◌∙◌, inl, inr, ◌⊎◌, subst, arith, ok, err, Bytes, IsBytes, length, take, drop, get_or,
  length-take, take-append-drop, split_at, All, All-split, Result-cases, Bool-cases, starts_with,
  ◌==◌,
}
use sw_tos.Protocol.Decoder.{Item, typed_frame, at_sync}
use sw_tos.Protocol.{
  sync, version, max_payload, DecodeError, bad_version, bad_checksum, Frame, IsFrame, frame_bytes,
  checksum, try_from, code_of, code_of-try_from,
}
use sw_tos.Scanner.{next}

-- The frame's bytes stand in the stream, and the frame is one that the wire can hold.
pub record Stands (stream : Bytes) (f : Frame) : Type 0 where
  pub before : Bytes
  pub after : Bytes
  pub place : stream ≡ before ++ (frame_bytes f ++ after)
  pub frame : IsFrame f

-- Of an item: a frame stands in the stream. An error says nothing.
abbrev pub StandsIn : Bytes → Item → Type 0
StandsIn stream (ok f) = Stands stream f
StandsIn stream (err e) = Unit {0}

pub Stands-append : (x stream : Bytes) {f : Frame} → Stands stream f → Stands (x ++ stream) f
Stands-append x stream s = record {
  before = x ++ s.before;
  after = s.after;
  place = ap (◌++◌ x) s.place ∙ sym (append_assoc x s.before _);
  frame = s.frame;
}

-- What a turn at a SYNC has drained and put out.
typed_frame_ok :
    (code channel : ℕ) (payload : Bytes) {f : Frame}
    → typed_frame code channel payload ≡ ok f
    → (code_of f.kind ≡ code) × (f.channel ≡ channel) × (f.payload ≡ payload)
unfolding typed_frame
typed_frame_ok code channel payload {f} e = elim (Result-cases (try_from code)) [
  | inl (kind, k) ↦ ground (arith, code_of-try_from code k)
  | inr (error, k) ↦ ground arith
]

-- The bytes of a frame, by any length bytes that give its length.
frame_bytes_by :
    (f : Frame) (l0 l1 : ℕ)
    → l0 < 256
    → l0 + l1 * 256 ≡ length f.payload
    → length f.payload ≤ max_payload
    → frame_bytes f
      ≡ 0xa5
        ∷ 0x5a
        ∷ version
        ∷ code_of f.kind
        ∷ f.channel
        ∷ l0
        ∷ l1
        ∷ (f.payload ++ checksum (version ∷ code_of f.kind ∷ f.channel ∷ l0 ∷ l1 ∷ f.payload) ∷ [])
unfolding frame_bytes
frame_bytes_by f l0 l1 byte size short =
    let low : length f.payload % 65536 % 256 ≡ l0 = omega arith in
    let high : length f.payload % 65536 / 256 % 256 ≡ l1 = omega arith in rw (low, high)

at_sync_ok :
    (code channel l0 l1 : ℕ) (body : Bytes) {f : Frame}
    → channel < 256
    → l0 < 256
    → IsBytes body
    → l0 + l1 * 256 ≤ max_payload
    → l0 + l1 * 256 < length body
    → get_or body (l0 + l1 * 256) 0
      ≡ checksum (version ∷ code ∷ channel ∷ l0 ∷ l1 ∷ take (l0 + l1 * 256) body)
    → typed_frame code channel (take (l0 + l1 * 256) body) ≡ ok f
    → (0xa5 ∷ 0x5a ∷ version ∷ code ∷ channel ∷ l0 ∷ l1 ∷ body
        ≡ frame_bytes f ++ drop (suc (l0 + l1 * 256)) body)
      × IsFrame f
at_sync_ok code channel l0 l1 body {f} hc h0 bytes short room sum typed =
    let (k, c, p) = typed_frame_ok code channel _ typed in
    let size : length f.payload ≡ l0 + l1 * 256 =
      ap length p ∙ omega (arith, length-take (l0 + l1 * 256) body) in
    let all =
      All-split (λ b. b < 256) (take (l0 + l1 * 256) body) (drop (l0 + l1 * 256) body)
        (rw (take-append-drop (l0 + l1 * 256) body) bytes) in
    (
      rw (frame_bytes_by f l0 l1 h0 (sym size) (omega arith), k, c, p, ← sum)
          (ap (λ (b : Bytes). 0xa5 ∷ 0x5a ∷ version ∷ code ∷ channel ∷ l0 ∷ l1 ∷ b)
            (sym (
              append_assoc (take (l0 + l1 * 256) body) (get_or body (l0 + l1 * 256) 0 ∷ [])
                (drop (suc (l0 + l1 * 256)) body)
              ∙ split_at (l0 + l1 * 256) body 0 room))),
      record { channel_byte = rw c hc; payload_bytes = rw p all.0; payload_short = omega arith },
    )

-- A turn at a SYNC that goes on has found a fault, and drained one byte, or has read a frame.
pub record Reads (b : Bytes) (os : List Item) (r : Bytes) : Type 0 where
  pub s0 : ℕ
  pub s1 : ℕ
  pub code : ℕ
  pub channel : ℕ
  pub l0 : ℕ
  pub l1 : ℕ
  pub body : Bytes
  pub shape : b ≡ s0 ∷ s1 ∷ version ∷ code ∷ channel ∷ l0 ∷ l1 ∷ body
  pub short : l0 + l1 * 256 ≤ max_payload
  pub room : l0 + l1 * 256 < length body
  pub sum :
      get_or body (l0 + l1 * 256) 0
      ≡ checksum (version ∷ code ∷ channel ∷ l0 ∷ l1 ∷ take (l0 + l1 * 256) body)
  pub out : os ≡ typed_frame code channel (take (l0 + l1 * 256) body) ∷ []
  pub left : r ≡ drop (suc (l0 + l1 * 256)) body

abbrev pub IsFault : Bytes → List Item → Bytes → Type 0
IsFault b os r = (e : DecodeError) × (x : ℕ) × (os ≡ err e ∷ []) × (b ≡ x ∷ r)

pub at_sync-cases :
    (b : Bytes) {os : List Item} {r : Bytes} → at_sync b ≡ next os r → IsFault b os r ⊎ Reads b os r
unfolding at_sync
at_sync-cases (s0 ∷ s1 ∷ v ∷ code ∷ channel ∷ l0 ∷ l1 ∷ body) e = elim (Bool-cases (v == version)) [
  | inr other ↦ inl (bad_version v, s0, ground arith, ground arith)
  | inl same ↦ elim (Bool-cases (ltb max_payload (l0 + l1 * 256))) [
    | inl long ↦ inl (DecodeError.payload_too_long (l0 + l1 * 256), s0, ground arith, ground arith)
    | inr short ↦
        elim (Bool-cases (
          get_or body (l0 + l1 * 256) 0
          == checksum (v ∷ code ∷ channel ∷ l0 ∷ l1 ∷ take (l0 + l1 * 256) body))) [
            | inr wrong ↦ inl (bad_checksum, s0, ground arith, ground arith)
            | inl right ↦ inr (record {
              s0 = s0;
              s1 = s1;
              code = code;
              channel = channel;
              l0 = l0;
              l1 = l1;
              body = body;
              shape = ground arith;
              short = ground arith;
              room = ground arith;
              sum = ground arith;
              out = ground arith;
              left = ground arith;
            })
          ]
  ]
]
at_sync-cases _ e = cc e

sync_head :
    (s0 s1 : ℕ) (bs : Bytes) → starts_with (s0 ∷ s1 ∷ bs) sync ≡ true → (s0 ≡ 0xa5) × (s1 ≡ 0x5a)
unfolding starts_with
sync_head s0 s1 bs h = ground arith

-- What a turn put out stands in the buffer, and what it left is the end of the buffer.
abbrev pub Accounts : Bytes → List Item → Bytes → Type 0
Accounts b os r = All (StandsIn b) os × ((x : Bytes) × (b ≡ x ++ r))

pub Reads-Accounts :
    {b : Bytes} {os : List Item} {r : Bytes}
    → Reads b os r
    → starts_with b sync ≡ true
    → IsBytes b
    → Accounts b os r
Reads-Accounts {b} {os} {r} g s h =
    elim (Result-cases (typed_frame g.code g.channel (take (g.l0 + g.l1 * 256) g.body))) [
      | inl (f, typed) ↦
          let (place, wire) =
            at_sync_ok g.code g.channel g.l0 g.l1 g.body bytes.1.1.1.1.0 bytes.1.1.1.1.1.0
              bytes.1.1.1.1.1.1.1 g.short g.room g.sum typed in
          let stood : b ≡ frame_bytes f ++ r =
            buffer ∙ place ∙ ap (◌++◌ (frame_bytes f)) (sym g.left) in
          let stands : Stands b f = record {
            before = [];
            after = r;
            place = stood;
            frame = wire;
          } in
          (
            subst (All (StandsIn b)) (sym (g.out ∙ ap (λ (o : Item). o ∷ []) typed)) (stands, tt),
            (frame_bytes f, stood),
          )
      | inr (e, typed) ↦ (
        subst (All (StandsIn b)) (sym (g.out ∙ ap (λ (o : Item). o ∷ []) typed)) (tt, tt),
        (
          header (take (suc (g.l0 + g.l1 * 256)) g.body),
          buffer
              ∙ ap header (
                  sym (take-append-drop (suc (g.l0 + g.l1 * 256)) g.body)
                  ∙ ap (◌++◌ (take (suc (g.l0 + g.l1 * 256)) g.body)) (sym g.left)),
        ),
      )
    ]
  where
    header : Bytes → Bytes
    header bs = 0xa5 ∷ 0x5a ∷ version ∷ g.code ∷ g.channel ∷ g.l0 ∷ g.l1 ∷ bs

    bytes : IsBytes (g.s0 ∷ g.s1 ∷ version ∷ g.code ∷ g.channel ∷ g.l0 ∷ g.l1 ∷ g.body)
    bytes = subst IsBytes g.shape h

    heads : (g.s0 ≡ 0xa5) × (g.s1 ≡ 0x5a)
    heads = sync_head g.s0 g.s1 _ (subst (λ (b : Bytes). starts_with b sync ≡ true) g.shape s)

    buffer : b ≡ 0xa5 ∷ 0x5a ∷ version ∷ g.code ∷ g.channel ∷ g.l0 ∷ g.l1 ∷ g.body
    buffer = g.shape ∙ cc (heads.0, heads.1)
