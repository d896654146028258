-- ===== src/Frontend/Monitor/Echoed.antt =====
-- Which answers `receive_echo` of tools/te-rs/src/main.rs accepts.
use sw_tos.Base.{
  ℕ, List, [], ◌∷◌, ◌++◌, append_assoc, none, some, Bool, true, false, leb, ◌==◌, ◌≡◌, ◌↔◌, refl,
  subst, sym, ap, ◌∙◌, arith, Bytes, length, length-append, drop, get_or, get_or-length, All,
  Bool-cases, inl, inr,
}
use sw_tos.Frontend.Monitor.{Turn, arrived, quiet, interrupted, broken, echo_loop, receive_echo}

-- The bytes that arrive before the deadline.
abbrev pub contents : List Turn → Bytes
contents [] = []
contents (arrived b ∷ turns) = b ∷ contents turns
contents (quiet ∷ turns) = contents turns
contents (interrupted ∷ turns) = contents turns
contents (broken e ∷ turns) = contents turns

abbrev pub IsUnbroken : Turn → Type 0
IsUnbroken (broken e) = ⊥
IsUnbroken _ = Unit

-- Bytes that begin with others.
abbrev pub Begins : Bytes → Bytes → Type 0
Begins bytes start = (rest : Bytes) × (bytes ≡ start ++ rest)

more_bytes : (b : ℕ) (bytes start : Bytes) → Begins bytes start ↔ Begins (b ∷ bytes) (b ∷ start)
more_bytes b bytes start =
    (λ (rest, same). (rest, ap (λ l. b ∷ l) same), λ (rest, same). (rest, ap (drop 1) same))

none_of_some : {A : Type 0} (e : A) → some e ≡ none → ⊥
none_of_some e h = grind (arith, h)

echo_done :
    (validate : Bool) (expected received : Bytes) (turns : List Turn)
    → leb (length expected) (length received) ≡ true
    → echo_loop validate expected received turns ≡ record { shown = []; failure = none }
unfolding echo_loop
echo_done validate expected received [] h = rw h refl
echo_done validate expected received (turn ∷ turns) h = rw h refl

more_expected :
    (received ms : Bytes) (m : ℕ) → leb (length (received ++ m ∷ ms)) (length received) ≡ false
more_expected received ms m = ground (arith, length-append received (m ∷ ms))

echo_loop_iff :
    (missing received : Bytes) (turns : List Turn)
    → All IsUnbroken turns
    → ((echo_loop true (received ++ missing) received turns).failure ≡ none)
      ↔ Begins (contents turns) missing
unfolding echo_loop
echo_loop_iff [] received turns h =
    let done : leb (length (received ++ [])) (length received) ≡ true =
      ground (arith, length-append {A = ℕ} received []) in
    rw (echo_done true (received ++ []) received turns done)
      (λ e. (contents turns, refl), λ e. refl)
echo_loop_iff (m ∷ ms) received [] h =
    rw (more_expected received ms m)
      (λ e. absurd (none_of_some _ e), λ (rest, same). absurd (grind (arith, same)))
echo_loop_iff (m ∷ ms) received (quiet ∷ turns) h =
    rw (more_expected received ms m) (echo_loop_iff (m ∷ ms) received turns h.1)
echo_loop_iff (m ∷ ms) received (interrupted ∷ turns) h =
    rw (more_expected received ms m) (echo_loop_iff (m ∷ ms) received turns h.1)
echo_loop_iff (m ∷ ms) received (broken e ∷ turns) h = absurd h.0
echo_loop_iff (m ∷ ms) received (arrived b ∷ turns) h =
    let next = echo_loop_iff ms (received ++ b ∷ []) turns h.1 in
    let here = get_or-length received ms m 0 in
    elim (Bool-cases (b == m)) [
      | inl e ↦
          let same : m ≡ b = ground (arith, e) in
          rw (more_expected received ms m, here, e)
            (rw same (
              let whole : received ++ m ∷ ms ≡ (received ++ b ∷ []) ++ ms =
                ap (λ q. received ++ q ∷ ms) same ∙ sym (append_assoc received (b ∷ []) ms) in
              (
                λ k. (more_bytes b (contents turns) ms).0 (
                    next.0 (
                      subst (λ l. (echo_loop true l (received ++ b ∷ []) turns).failure ≡ none)
                        whole k)),
                λ k.
                    subst (λ l. (echo_loop true l (received ++ b ∷ []) turns).failure ≡ none)
                      (sym whole) (next.1 ((more_bytes b (contents turns) ms).1 k)),
              )))
      | inr n ↦
          rw (more_expected received ms m, here, n)
            (
              λ e. absurd (none_of_some _ e),
              λ (rest, same). absurd (ground (arith, n, ap (λ l. get_or l 0 0) same)),
            )
    ]

-- With `--sync` a line's echo is accepted exactly if the bytes that arrive before the deadline begin
-- with the line, when no call fails.
pub receive_echo_iff :
    (expected : Bytes) (turns : List Turn)
    → All IsUnbroken turns
    → ((receive_echo turns expected true).failure ≡ none) ↔ Begins (contents turns) expected
receive_echo_iff expected turns h = echo_loop_iff expected [] turns h
