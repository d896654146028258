-- ===== src/Resource/Publish.antt =====
-- When a snapshot is published, and what it is made of.
use sw_tos.Base.{
  ℕ, ◌+◌, ◌*◌, get_or, List, [], ◌∷◌, Option, none, some, Bool, true, false, ◌≡◌, ◌⊎◌, inl, inr,
  ◌≢◌, Bool-cases, refl, sym, ap, subst, arith, ◌==◌, Bytes, length, ◌&&◌, ◌||◌,
}
use sw_tos.Resource.{
  ResourceSnapshot, empty_snapshot, end_record, u24, SnapshotAssembler, push_body, push,
}

-- The record ends the generation of the pending snapshot.
pub record Ends (a : SnapshotAssembler) (payload : Bytes) : Type 0 where
  pub snapshot : ResourceSnapshot
  pub body : Bytes
  pub is_pending : a.pending ≡ some snapshot
  pub is_end : payload ≡ 5 ∷ snapshot.generation ∷ body
  pub is_whole : length body ≡ 9

-- The number in three bytes of a record, the least significant first.
abbrev pub counter : ℕ → Bytes → ℕ
counter at body = get_or body at 0 + 256 * get_or body (at + 1) 0 + 65536 * get_or body (at + 2) 0

-- A snapshot with the counters of an END record: its nine bytes are the errors of the protocol and
-- the bytes that the serial port received and sent.
abbrev pub counted : Bytes → ResourceSnapshot → ResourceSnapshot
counted body s = record s {
  protocol_errors = counter 0 body;
  uart_rx = counter 3 body;
  uart_tx = counter 6 body;
}

nine_counted :
    (a b c d e f g h i : ℕ) (rest : Bytes) (s : ResourceSnapshot)
    → end_record (a ∷ b ∷ c ∷ d ∷ e ∷ f ∷ g ∷ h ∷ i ∷ rest) s
      ≡ counted (a ∷ b ∷ c ∷ d ∷ e ∷ f ∷ g ∷ h ∷ i ∷ rest) s
unfolding end_record u24
nine_counted a b c d e f g h i rest s = ground arith

end_record-counted :
    (body : Bytes) (s : ResourceSnapshot) → length body ≡ 9 → end_record body s ≡ counted body s
end_record-counted (a ∷ b ∷ c ∷ d ∷ e ∷ f ∷ g ∷ h ∷ i ∷ rest) s size =
    nine_counted a b c d e f g h i rest s
end_record-counted short s size = absurd (omega (arith, size))

-- The assembler after the record that ends the generation.
abbrev pub published :
    (a : SnapshotAssembler) (payload : Bytes) → ℕ → Ends a payload → SnapshotAssembler
published a payload now e = record {
  pending = none;
  current = some (counted e.body e.snapshot);
  updated = some now;
}

-- What a record may do: publish the pending snapshot, or leave what is published alone.
abbrev pub Effect :
    (a : SnapshotAssembler) (payload : Bytes) → ℕ → SnapshotAssembler × Bool → Type 0
Effect a payload now r =
    ((e : Ends a payload) × (r ≡ (published a payload now e, true)))
    ⊎ ((¬ Ends a payload) × (r.1 ≡ false) × (r.0.current ≡ a.current) × (r.0.updated ≡ a.updated))

not_Ends :
    (a : SnapshotAssembler) (kind generation : ℕ) (body : Bytes)
    → ((kind ≢ 5) ⊎ (length body ≢ 9))
      ⊎ ((a.pending ≡ none)
          ⊎ ((s : ResourceSnapshot) × (a.pending ≡ some s) × (s.generation ≢ generation)))
    → ¬ Ends a (kind ∷ generation ∷ body)
not_Ends a kind generation body why e = ground (arith, e.is_end, e.is_whole, e.is_pending)

push_body-Effect :
    (p : Option ResourceSnapshot) (kind generation : ℕ) (body : Bytes) (now : ℕ)
    (a : SnapshotAssembler)
    → a.pending ≡ p
    → Effect a (kind ∷ generation ∷ body) now (push_body p kind generation body now a)
unfolding push_body
push_body-Effect none kind generation body now a e =
    inr (not_Ends a kind generation body (inr (inl e)), refl, refl, refl)
push_body-Effect (some s) kind generation body now a e =
    elim (Bool-cases (s.generation == generation)) [
      | inr other ↦
          rw other (
            inr
              (not_Ends a kind generation body (inr (inr (s, e, ground arith))), refl, refl, refl))
      | inl same ↦ elim (Bool-cases (kind == 5 && length body == 9)) [
        | inl ends ↦
            rw (same, ends)
              (inl (
                record {
                  snapshot = s;
                  body = body;
                  is_pending = e;
                  is_end = ground arith;
                  is_whole = ground arith;
                },
                rw (end_record-counted body s (ground arith)) refl,
              ))
        | inr goes ↦
            rw (same, goes)
              (inr (not_Ends a kind generation body (inl (ground arith)), refl, refl, refl))
      ]
    ]

-- A snapshot is published by the END record of the pending generation and by no other record:
-- then it is the pending one with the three counters that the record's nine bytes hold, least
-- significant byte first, under the time given, and nothing is pending; otherwise the published snapshot and its time stay, and `false` is returned.
pub push-Effect :
    (a : SnapshotAssembler) (payload : Bytes) (now : ℕ) → Effect a payload now (push a payload now)
unfolding push
push-Effect a [] now = inr ((λ e. cc (e.is_end)), refl, refl, refl)
push-Effect a (kind ∷ []) now = inr ((λ e. cc (e.is_end)), refl, refl, refl)
push-Effect a (kind ∷ generation ∷ body) now = elim (Bool-cases (kind == 1)) [
  | inl begin ↦
      rw begin (inr (not_Ends a kind generation body (inl (inl (ground arith))), refl, refl, refl))
  | inr later ↦ rw later (push_body-Effect a.pending kind generation body now a refl)
]

-- The records of a connection, one after another, with the results of the calls.
unfoldable pub push_all : SnapshotAssembler → List (Bytes × ℕ) → SnapshotAssembler × List Bool
push_all a [] = (a, [])
push_all a ((payload, now) ∷ rest) =
    let (a', done) = push a payload now in
    let (a'', later) = push_all a' rest in (a'', done ∷ later)

abbrev pub any_true : List Bool → Bool
any_true [] = false
any_true (b ∷ bs) = b || any_true bs

-- Two assemblers agree after a call: on what is pending, on the result, and where something was
-- published on everything.
abbrev Agree : SnapshotAssembler × Bool → SnapshotAssembler × Bool → Type 0
Agree r r' = (r.0.pending ≡ r'.0.pending) × (r.1 ≡ r'.1) × ((r.1 ≡ false) ⊎ (r.0 ≡ r'.0))

push_body-Agree :
    (p : Option ResourceSnapshot) (kind generation : ℕ) (body : Bytes) (now : ℕ)
    (a a' : SnapshotAssembler)
    → a.pending ≡ a'.pending
    → Agree (push_body p kind generation body now a) (push_body p kind generation body now a')
unfolding push_body
push_body-Agree none kind generation body now a a' e = (e, refl, inl refl)
push_body-Agree (some s) kind generation body now a a' e =
    elim (Bool-cases (s.generation == generation)) [
      | inr other ↦ rw other (e, refl, inl refl)
      | inl same ↦ elim (Bool-cases (kind == 5 && length body == 9)) [
        | inl ends ↦ rw (same, ends) (refl, refl, inr refl)
        | inr goes ↦ rw (same, goes) (refl, refl, inl refl)
      ]
    ]

push-Agree :
    (a a' : SnapshotAssembler) (payload : Bytes) (now : ℕ)
    → a.pending ≡ a'.pending
    → Agree (push a payload now) (push a' payload now)
unfolding push
push-Agree a a' [] now e = (e, refl, inl refl)
push-Agree a a' (kind ∷ []) now e = (e, refl, inl refl)
push-Agree a a' (kind ∷ generation ∷ body) now e = elim (Bool-cases (kind == 1)) [
  | inl begin ↦ rw begin (refl, refl, inl refl)
  | inr later ↦ rw later (
      subst
        (λ p.
          Agree (push_body p kind generation body now a)
            (push_body a'.pending kind generation body now a'))
        (sym e) (push_body-Agree a'.pending kind generation body now a a' e))
]

abbrev pub AllAgree : SnapshotAssembler × List Bool → SnapshotAssembler × List Bool → Type 0
AllAgree r r' =
    (r.0.pending ≡ r'.0.pending) × (r.1 ≡ r'.1) × ((any_true r.1 ≡ false) ⊎ (r.0 ≡ r'.0))

push_all-AllAgree :
    (records : List (Bytes × ℕ)) (a a' : SnapshotAssembler)
    → a.pending ≡ a'.pending
    → AllAgree (push_all a records) (push_all a' records)
unfolding push_all
push_all-AllAgree [] a a' e = (e, refl, inl refl)
push_all-AllAgree ((payload, now) ∷ rest) a a' e =
    let (pending, result, whole) = push-Agree a a' payload now e in
    let (pending', results, wholes) =
      push_all-AllAgree rest (push a payload now).0 (push a' payload now).0 pending in
    (
      pending',
      cc (result, results),
      elim whole [
        | inr same ↦ inr (ap (λ (x : SnapshotAssembler). (push_all x rest).0) same)
        | inl quiet ↦ elim wholes [ inr same ↦ inr same | inl later ↦ inl (rw quiet later) ]
      ],
    )

-- A generation stands alone: from its BEGIN on, the results of the calls and what is pending do
-- not depend on anything that came before, and if one of the calls publishes a snapshot neither
-- does any other part of the assembler.
pub push_all-begin :
    (generation now : ℕ) (body : Bytes) (records : List (Bytes × ℕ)) (a a' : SnapshotAssembler)
    → AllAgree
        (push_all a ((1 ∷ generation ∷ body, now) ∷ records))
        (push_all a' ((1 ∷ generation ∷ body, now) ∷ records))
unfolding push_all push
push_all-begin generation now body records a a' =
    let (pending, results, whole) =
      push_all-AllAgree records (record a { pending = some (empty_snapshot generation) })
        (record a' { pending = some (empty_snapshot generation) }) refl in
    (pending, ap (◌∷◌ false) results, whole)
