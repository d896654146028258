-- ===== src/Protocol/Negotiator.antt =====
-- The handshake of tools/te-rs/src/protocol.rs: `hello`, `hello_ack`, `Mode` and `Negotiator`.
use sw_tos.Base.{
  Bool, true, false, ◌&&◌, ◌==◌, ◌≡◌, ◌↔◌, ◌⊎◌, inl, inr, Bool-cases, ◌≢◌, refl, if◌then◌else◌,
  arith, Bytes, codes, bytes_eq, bytes_eq_iff,
}
use sw_tos.Protocol.{FrameType, Frame, code_of, try_from, try_from-code_of}

abbrev pub negotiation_payload : Bytes
negotiation_payload = codes "SWT1"

abbrev pub hello : Frame
hello = record { kind = FrameType.hello; channel = 0; payload = negotiation_payload }

abbrev pub hello_ack : Frame
hello_ack = record { kind = FrameType.hello_ack; channel = 0; payload = negotiation_payload }

pub data Mode : Type 0 where
  plain framed : Mode

pub record Negotiator : Type 0 where
  pub mode : Mode

-- `Negotiator::default()`.
abbrev pub initial : Negotiator
initial = record { mode = plain }

-- The derived `==` of frame types: equal discriminants.
kind_eq : FrameType → FrameType → Bool
unfolding code_of
kind_eq a b = code_of a == code_of b

-- The condition on the frame in `Negotiator::observe`.
is_ack : Frame → Bool
unfolding kind_eq bytes_eq
is_ack f =
    kind_eq f.kind FrameType.hello_ack && f.channel == 0 && bytes_eq f.payload negotiation_payload

observe_in : Mode → Negotiator → Frame → Negotiator × Bool
observe_in plain n f = if is_ack f then (record n { mode = framed }, true) else (n, false)
observe_in framed n f = (n, false)

-- `Negotiator::observe`.
pub observe : Negotiator → Frame → Negotiator × Bool
unfolding observe_in is_ack
observe n f = observe_in n.mode n f

-- `Negotiator::disconnect`.
abbrev pub disconnect : Negotiator → Negotiator
disconnect n = record n { mode = plain }

kind_eq-hello_ack : (k : FrameType) → kind_eq k FrameType.hello_ack ≡ true → k ≡ FrameType.hello_ack
unfolding kind_eq try_from
kind_eq-hello_ack k h = ground (arith, try_from-code_of k)

is_ack_iff : (f : Frame) → (is_ack f ≡ true) ↔ (f ≡ hello_ack)
unfolding is_ack
is_ack_iff f = (forward, backward)
  where
    forward : is_ack f ≡ true → f ≡ hello_ack
    forward h = ground (arith, kind_eq-hello_ack f.kind, bytes_eq_iff f.payload negotiation_payload)

    backward : f ≡ hello_ack → is_ack f ≡ true
    backward e = rw e

abbrev pub Observes : Negotiator → Frame → Negotiator × Bool → Type 0
Observes n f r =
    ((r.1 ≡ true) ↔ ((n.mode ≡ plain) × (f ≡ hello_ack)))
    × ((r.0.mode ≡ framed) ↔ ((n.mode ≡ framed) ⊎ (f ≡ hello_ack)))

observe_in-Observes :
    (m : Mode) (n : Negotiator) (f : Frame) → n.mode ≡ m → Observes n f (observe_in m n f)
unfolding observe_in
observe_in-Observes framed n f e = ((λ h. cc h, λ h. cc (h.0)), (λ h. inl e, λ h. e))
observe_in-Observes plain n f e = elim (Bool-cases (is_ack f)) [
  | inl hit ↦
      rw hit
        ((λ h. (e, (is_ack_iff f).0 hit), λ h. refl), (λ h. inr ((is_ack_iff f).0 hit), λ h. refl))
  | inr miss ↦
      let other : f ≢ hello_ack = λ same. cc ((is_ack_iff f).1 same) in
      rw miss (
        (λ h. cc h, λ h. absurd (other h.1)),
        (λ h. cc (h, e), elim [ inl h ↦ h | inr h ↦ absurd (other h) ]),
      )
]

-- `observe` returns `true` exactly when, in plain mode, the one acknowledgement arrives, and the
-- mode after it is framed exactly when it was framed or that acknowledgement arrived.
pub observe-Observes : (n : Negotiator) (f : Frame) → Observes n f (observe n f)
unfolding observe
observe-Observes n f = observe_in-Observes n.mode n f refl
