-- ===== src/Protocol/Connection/Opening.antt =====
-- Where a window may begin: the first place of a byte string at which the needle stands, or at
-- which the bytes that have come so far are the start of one. The two searches of the plain mode,
-- for a window and for the longest suffix that is a prefix, both find this place.
use sw_tos.Base.{
  ℕ, zero, suc, ◌+◌, ◌-◌, ◌<◌, ◌≤◌, min, Bool, true, false, ◌&&◌, [], ◌∷◌, ◌++◌, none, some, ◌≡◌,
  refl, sym, ap, ◌∙◌, inl, inr, ◌≢◌, arith, Bool-cases, Option-cases, if◌then◌else◌, ◌==◌, Bytes,
  dec_lt, length, take, drop, length-drop, drop_all, bytes_eq, starts_with, starts_with-length,
  find_window, find_window-starts_with, find_window_first, find_window-none,
}
use sw_tos.Protocol.Connection.{suffix_from, longest_suffix_prefix}

-- Neither string contradicts the other.
unfoldable pub agrees : Bytes → Bytes → Bool
agrees [] needle = true
agrees (b ∷ bs) [] = true
agrees (b ∷ bs) (n ∷ ns) = b == n && agrees bs ns

unfoldable pub opening : Bytes → Bytes → ℕ
unfolding agrees
opening [] needle = 0
opening (b ∷ bs) needle = if agrees (b ∷ bs) needle then 0 else suc (opening bs needle)

-- More bytes make no contradiction good.
agrees-append :
    (b more needle : Bytes) → agrees b needle ≡ false → agrees (b ++ more) needle ≡ false
unfolding agrees
agrees-append [] more needle h = cc h
agrees-append (b ∷ bs) more [] h = cc h
agrees-append (b ∷ bs) more (n ∷ ns) h = ground (arith, agrees-append bs more ns)

-- On a string that is long enough, to agree is to start with the needle.
pub agrees_long :
    (b needle : Bytes) → length needle ≤ length b → agrees b needle ≡ starts_with b needle
unfolding agrees starts_with
agrees_long [] [] h = refl
agrees_long [] (n ∷ ns) h = absurd (omega arith)
agrees_long (b ∷ bs) [] h = refl
agrees_long (b ∷ bs) (n ∷ ns) h = ap (◌&&◌ (b == n)) (agrees_long bs ns (omega arith))

-- On a string that is no longer, it is to be the needle's prefix.
agrees_short :
    (b needle : Bytes)
    → length b ≤ length needle
    → agrees b needle ≡ bytes_eq b (take (length b) needle)
unfolding agrees bytes_eq
agrees_short [] needle h = refl
agrees_short (b ∷ bs) [] h = absurd (omega arith)
agrees_short (b ∷ bs) (n ∷ ns) h = ap (◌&&◌ (b == n)) (agrees_short bs ns (omega arith))

pub opening-le : (b needle : Bytes) → opening b needle ≤ length b
unfolding opening
opening-le [] needle = omega arith
opening-le (b ∷ bs) needle = ground (arith, opening-le bs needle)

pub opening_before :
    (b needle : Bytes) (k : ℕ) → k < opening b needle → agrees (drop k b) needle ≡ false
unfolding opening
opening_before [] needle k h = elim h [ ]
opening_before (b ∷ bs) needle zero h = ground arith
opening_before (b ∷ bs) needle (suc k) h = ground (arith, opening_before bs needle k)

pub opening_at :
    (b needle : Bytes)
    → opening b needle < length b
    → agrees (drop (opening b needle) b) needle ≡ true
unfolding opening
opening_at [] needle h = elim h [ ]
opening_at (b ∷ bs) needle h = ground (arith, opening_at bs needle)

opening-le_of_agrees :
    (b needle : Bytes) (k : ℕ) → agrees (drop k b) needle ≡ true → opening b needle ≤ k
opening-le_of_agrees b needle k h = elim (dec_lt k (opening b needle)) [
  | yes lt ↦ cc (opening_before b needle k lt)
  | no ge ↦ omega arith
]

pub opening_starts : (b needle : Bytes) → starts_with b needle ≡ true → opening b needle ≡ 0
opening_starts b needle h =
    let agree = agrees_long b needle (starts_with-length b needle h) ∙ h in
    omega (arith, opening-le_of_agrees b needle 0 agree)

opening_ne :
    (b needle : Bytes) (k : ℕ)
    → k < length b
    → agrees (drop k b) needle ≡ false
    → opening b needle ≢ k
opening_ne b needle k lt h e = cc (rw e at (opening_at b needle (rw e lt)))

opening_here :
    (b : ℕ) (bs needle : Bytes) → agrees (b ∷ bs) needle ≡ true → opening (b ∷ bs) needle ≡ 0
unfolding opening
opening_here b bs needle h = rw h

opening_later :
    (b : ℕ) (bs needle : Bytes)
    → agrees (b ∷ bs) needle ≡ false
    → opening (b ∷ bs) needle ≡ suc (opening bs needle)
unfolding opening
opening_later b bs needle h = rw h

-- Bytes that come later are looked at from the place on.
pub opening-append :
    (b more needle : Bytes)
    → opening (b ++ more) needle
      ≡ opening b needle + opening (drop (opening b needle) b ++ more) needle
opening-append [] more needle = unfold opening in omega arith
opening-append (b ∷ bs) more needle = elim (Bool-cases (agrees (b ∷ bs) needle)) [
  | inl h ↦ rw (opening_here b bs needle h) (omega arith)
  | inr h ↦
      rw
        (
          opening_later b bs needle h,
          opening_later b (bs ++ more) needle (agrees-append (b ∷ bs) more needle h),
        )
        (omega (arith, opening-append bs more needle))
]

-- A window that is found stands at that place.
pub opening-find_window :
    (b needle : Bytes) {at : ℕ} → find_window b needle ≡ some at → opening b needle ≡ at
opening-find_window b needle {at} e = meet (opening b needle) refl
  where
    stands :
        (starts_with (drop at b) needle ≡ true) × (at < length b) × (at + length needle ≤ length b)
    stands = find_window-starts_with b needle e

    long : (k : ℕ) → k ≤ at → agrees (drop k b) needle ≡ starts_with (drop k b) needle
    long k le = agrees_long (drop k b) needle (omega (arith, length-drop k b, stands.2))

    meet : (k : ℕ) → opening b needle ≡ k → k ≡ at
    meet k h = elim (dec_lt k at) [
      | yes lt ↦
          let agree : agrees (drop k b) needle ≡ true =
            rw h at (opening_at b needle (omega (arith, stands.1))) in
          cc (agree, long k (omega arith), find_window_first b needle k e lt)
      | no ge ↦ omega (arith, opening-le_of_agrees b needle at (long at (omega arith) ∙ stands.0))
    ]

-- Where no window is found, the longest suffix that is a prefix begins at that place.
suffix_from-opening :
    (b needle : Bytes) (n : ℕ)
    → n ≤ length b
    → n ≤ length needle
    → length b - n ≤ opening b needle
    → suffix_from b needle n ≡ length b - opening b needle
unfolding suffix_from
suffix_from-opening b needle zero h k le = omega (arith, opening-le b needle)
suffix_from-opening b needle (suc n) h k le =
    let at = length b - suc n in
    let size : length (drop at b) ≡ suc n = omega (arith, length-drop at b) in
    let same : bytes_eq (drop at b) (take (suc n) needle) ≡ agrees (drop at b) needle =
      sym (rw size at (agrees_short (drop at b) needle (omega arith))) in
    elim (Bool-cases (agrees (drop at b) needle)) [
      | inl hit ↦ rw (same, hit) (omega (arith, opening-le_of_agrees b needle at hit))
      | inr miss ↦
          rw (same, miss)
            (suffix_from-opening b needle n (omega arith) (omega arith)
              (omega (arith, opening_ne b needle at (omega arith) miss)))
    ]

-- In a buffer without the needle, which is not empty, the suffix that `longest_suffix_prefix`
-- measures begins at the first place from which the buffer agrees with the needle as far as it
-- goes.
pub longest_suffix_prefix-opening :
    (b needle : Bytes)
    → 0 < length needle
    → find_window b needle ≡ none
    → longest_suffix_prefix b needle ≡ length b - opening b needle
unfolding longest_suffix_prefix
longest_suffix_prefix-opening b needle pos e =
    suffix_from-opening b needle (min (length b) (length needle - 1)) (omega arith) (omega arith)
      (bound (opening b needle) refl)
  where
    bound : (k : ℕ) → opening b needle ≡ k → length b - min (length b) (length needle - 1) ≤ k
    bound k h = elim (dec_lt k (length b - (length needle - 1))) [
      | yes lt ↦
          let agree : agrees (drop k b) needle ≡ true =
            rw h at (opening_at b needle (omega arith)) in
          cc (
            agree,
            agrees_long (drop k b) needle (omega (arith, length-drop k b)),
            find_window-none b needle k e (omega arith),
          )
      | no ge ↦ omega arith
    ]

find_window-opening_cons :
    (b : Bytes) (n : ℕ) (ns : Bytes)
    → find_window b (n ∷ ns) ≡ (
        if starts_with (drop (opening b (n ∷ ns)) b) (n ∷ ns)
        then some (opening b (n ∷ ns))
        else none)
find_window-opening_cons b n ns = elim (Option-cases (find_window b (n ∷ ns))) [
  | inr (at, e) ↦ rw (opening-find_window b (n ∷ ns) e, (find_window-starts_with b (n ∷ ns) e).0) e
  | inl e ↦ e ∙ sym (rw (absent e))
]
  where
    absent :
        find_window b (n ∷ ns) ≡ none → starts_with (drop (opening b (n ∷ ns)) b) (n ∷ ns) ≡ false
    absent e = elim (dec_lt (opening b (n ∷ ns)) (length b)) [
      | yes lt ↦ find_window-none b (n ∷ ns) (opening b (n ∷ ns)) e lt
      | no ge ↦ rw (drop_all (opening b (n ∷ ns)) b (omega arith)) (unfold starts_with in refl)
    ]

-- The search for a window, by the place where one may begin.
pub find_window-opening :
    (b needle : Bytes)
    → 0 < length needle
    → find_window b needle
      ≡ (if starts_with (drop (opening b needle) b) needle then some (opening b needle) else none)
find_window-opening b [] h = elim h [ ]
find_window-opening b (n ∷ ns) h = find_window-opening_cons b n ns
