-- ===== src/Disasm/Table.antt =====
-- The table inverts the encoder, and what is decoded was there to decode.
use sw_tos.Base.{
  ℕ, zero, suc, ◌+◌, ◌<◌, ◌≤◌, List, [], ◌∷◌, ◌++◌, map, concat, Option, none, some, Bool, true,
  false, ◌==◌, if◌then◌else◌, Bytes, length, ◌≡◌, sym, ap, subst, ◌∙◌, ◌⊎◌, inl, inr, arith,
  Bool-cases, Option-cases, ==_refl, ==_iff, ℕ_discrete,
}
use sw_tos.Disasm.{
  Isa, count_up, Decoded, Entry, Entries, or_insert, insert, fill, operands, table, decode_entry,
  decode,
}

-- Membership.
abbrev In : {A : Type 0} → A → List A → Type 0
In a [] = ⊥
In a (x ∷ xs) = (a ≡ x) ⊎ In a xs

In-append : {A : Type 0} (a : A) (xs ys : List A) → In a xs ⊎ In a ys → In a (xs ++ ys)
In-append a [] ys (inl h) = elim h [ ]
In-append a [] ys (inr h) = h
In-append a (x ∷ xs) ys (inl (inl h)) = inl h
In-append a (x ∷ xs) ys (inl (inr h)) = inr (In-append a xs ys (inl h))
In-append a (x ∷ xs) ys (inr h) = inr (In-append a xs ys (inr h))

In-concat :
    {A : Type 0} (a : A) (x : ℕ) (f : ℕ → List A) (ns : List ℕ)
    → In x ns
    → In a (f x)
    → In a (concat (map f ns))
In-concat a x f [] m h = elim m [ ]
In-concat a x f (n ∷ ns) (inl e) h = In-append a (f n) _ (inl (subst (λ k. In a (f k)) e h))
In-concat a x f (n ∷ ns) (inr m) h = In-append a (f n) _ (inr (In-concat a x f ns m h))

In-map : {A : Type 0} (f : ℕ → A) (x : ℕ) (ns : List ℕ) → In x ns → In (f x) (map f ns)
In-map f x [] m = elim m [ ]
In-map f x (n ∷ ns) (inl e) = inl (ap f e)
In-map f x (n ∷ ns) (inr m) = inr (In-map f x ns m)

In-count_up : (from n x : ℕ) → from ≤ x → x < from + n → In x (count_up from n)
In-count_up from zero x le lt = absurd (omega arith)
In-count_up from (suc n) x le lt = elim (ℕ_discrete x from) [
  | yes e ↦ inl e
  | no ne ↦ inr (In-count_up (suc from) n x (omega arith) (omega arith))
]

module _ {O : Type 0} (isa : Isa O) where
  -- The byte that an entry is encoded as.
  abbrev pub byte_of : Entry isa → Option ℕ
  byte_of (opcode, ra, rb) = isa.encode_instruction opcode ra rb

  -- Every entry is at its own byte.
  abbrev IsInverse : Entries isa → Type 0
  IsInverse t = (b : ℕ) (e : Entry isa) → t b ≡ some e → byte_of e ≡ some b

  insert_at_byte :
      (e : Entry isa) (t : Entries isa) (byte b : ℕ)
      → byte_of e ≡ some byte
      → insert isa e t b ≡ (if b == byte then or_insert isa (t b) e else t b)
  insert_at_byte (opcode, ra, rb) t byte b h = rw (h, insert)

  insert-none : (e : Entry isa) (t : Entries isa) → byte_of e ≡ none → insert isa e t ≡ t
  insert-none (opcode, ra, rb) t h = rw (h, insert)

  insert-IsInverse : (e : Entry isa) (t : Entries isa) → IsInverse t → IsInverse (insert isa e t)
  insert-IsInverse e t h b found at = elim (Option-cases (byte_of e)) [
    | inl gone ↦ h b found (ap (λ (u : Entries isa). u b) (sym (insert-none e t gone)) ∙ at)
    | inr (byte, here) ↦ elim (Bool-cases (b == byte)) [
      | inr other ↦ h b found (sym (insert_at_byte e t byte b here ∙ rw other) ∙ at)
      | inl same ↦ elim (Option-cases (t b)) [
        | inr (old, there) ↦
            h b found (there ∙ sym (insert_at_byte e t byte b here ∙ rw (same, there)) ∙ at)
        | inl empty ↦
            let first : insert isa e t b ≡ some e =
              insert_at_byte e t byte b here ∙ rw (same, empty) in
            let is_e : e ≡ found = cc (first, at) in
            subst (λ x. byte_of x ≡ some b) is_e (here ∙ ap some (sym ((==_iff b byte).0 same)))
      ]
    ]
  ]

  fill-IsInverse :
      (es : List (Entry isa)) (t : Entries isa) → IsInverse t → IsInverse (fill isa es t)
  unfolding fill
  fill-IsInverse [] t h = h
  fill-IsInverse (e ∷ es) t h = fill-IsInverse es (insert isa e t) (insert-IsInverse e t h)

  insert_keeps :
      (e old : Entry isa) (t : Entries isa) (b : ℕ) → t b ≡ some old → insert isa e t b ≡ some old
  insert_keeps e old t b h = elim (Option-cases (byte_of e)) [
    | inl gone ↦ ap (λ (u : Entries isa). u b) (insert-none e t gone) ∙ h
    | inr (byte, here) ↦ insert_at_byte e t byte b here ∙ kept (b == byte)
  ]
    where
      kept : (c : Bool) → (if c then or_insert isa (t b) e else t b) ≡ some old
      kept true = rw h
      kept false = h

  fill_keeps :
      (es : List (Entry isa)) (old : Entry isa) (t : Entries isa) (b : ℕ)
      → t b ≡ some old
      → fill isa es t b ≡ some old
  unfolding fill
  fill_keeps [] old t b h = h
  fill_keeps (e ∷ es) old t b h = fill_keeps es old (insert isa e t) b (insert_keeps e old t b h)

  insert_has :
      (e : Entry isa) (t : Entries isa) (b : ℕ)
      → byte_of e ≡ some b
      → (first : Entry isa) × (insert isa e t b ≡ some first)
  insert_has e t b h = elim (Option-cases (t b)) [
    | inl gone ↦ (e, insert_at_byte e t b b h ∙ rw (==_refl b, gone))
    | inr (old, there) ↦ (old, insert_at_byte e t b b h ∙ rw (==_refl b, there))
  ]

  fill_has :
      (es : List (Entry isa)) (e : Entry isa) (t : Entries isa) (b : ℕ)
      → In e es
      → byte_of e ≡ some b
      → (first : Entry isa) × (fill isa es t b ≡ some first)
  unfolding fill
  fill_has [] e t b m h = elim m [ ]
  fill_has (x ∷ es) e t b (inl same) h =
      let (first, at) = insert_has x t b (sym (ap byte_of same) ∙ h) in
      (first, fill_keeps es first (insert isa x t) b at)
  fill_has (x ∷ es) e t b (inr m) h = fill_has es e (insert isa x t) b m h

  In-operands :
      (values registers value ra rb : ℕ)
      → value < values
      → ra < registers
      → rb < registers
      → In (isa.opcode_from value, ra, rb) (operands isa values registers)
  unfolding operands
  In-operands values registers value ra rb hv ha hb =
      In-concat (isa.opcode_from value, ra, rb) value _ (count_up 0 values)
        (In-count_up 0 values value (omega arith) (omega arith))
        (In-concat (isa.opcode_from value, ra, rb) ra _ (count_up 0 registers)
          (In-count_up 0 registers ra (omega arith) (omega arith))
          (In-map (λ b. (isa.opcode_from value, ra, b)) rb (count_up 0 registers)
            (In-count_up 0 registers rb (omega arith) (omega arith))))

  -- Some opcode and registers that the table is made of are encoded as the byte.
  abbrev pub IsEncoding : ℕ → Type 0
  IsEncoding byte =
      (value : ℕ) × (ra : ℕ) × (rb : ℕ) × (value < 32)
      × (ra < 8)
      × (rb < 8)
      × (isa.encode_instruction (isa.opcode_from value) ra rb ≡ some byte)

  table_has : (byte : ℕ) → IsEncoding byte → (e : Entry isa) × (table isa byte ≡ some e)
  unfolding table
  table_has byte (value, ra, rb, hv, ha, hb, h) =
      fill_has (operands isa 32 8) (isa.opcode_from value, ra, rb) (λ b. none) byte
        (In-operands 32 8 value ra rb hv ha hb) h

  -- The table inverts the encoder, at every byte: either it has an entry, and that entry is encoded
  -- as the byte; or it has none, and none of the 32 opcodes is encoded as the byte with any two of
  -- the 8 registers.
  pub table_lem :
      (byte : ℕ)
      → ((e : Entry isa) × (table isa byte ≡ some e) × (byte_of e ≡ some byte))
        ⊎ ((table isa byte ≡ none) × (¬ IsEncoding byte))
  unfolding table
  table_lem byte = elim (Option-cases (table isa byte)) [
    | inl gone ↦ inr (gone, λ h. let (e, at) = table_has byte h in cc (gone, at))
    | inr (e, at) ↦
        inl (e, at, fill-IsInverse (operands isa 32 8) (λ b. none) (λ b e h. cc h) byte e at)
  ]

  -- An instruction that is decoded lies within the bytes given.
  pub decode-size :
      (bytes : Bytes) (address : ℕ) {d : Decoded}
      → decode isa bytes address ≡ some d
      → d.size ≤ length bytes
  unfolding decode
  decode-size [] address e = cc e
  decode-size (first ∷ rest) address e = fits (table isa first) e
    where
      fits :
          (entry : Option (Entry isa)) {d : Decoded}
          → decode_entry isa entry (first ∷ rest) address ≡ some d
          → d.size ≤ length (first ∷ rest)
      fits none e = unfold decode_entry in cc e
      fits (some (opcode, ra, rb)) {d} e = unfold decode_entry in ground arith
