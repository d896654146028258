-- ===== src/Frontend/Upload/Sent.antt =====
-- What the upload of tools/te-rs/src/main.rs sends of a file.
use sw_tos.Base.{
  ℕ, suc, ◌+◌, ◌≤◌, ◌<◌, List, [], ◌∷◌, ◌++◌, append_assoc, append-nil, concat, Option, none, some,
  Bool, true, false, ◌==◌, ◌≡◌, ◌⊎◌, inl, inr, refl, sym, ap, ◌∙◌, arith, Bytes, Text, length, take,
  Bool-cases, Result, ok, err, ◌≢◌, ==_iff, All, get_elem?, subst,
}
use sw_tos.Frontend.Monitor.{Turn, IoError, receive_echo}
use sw_tos.Frontend.Upload.{
  add_first, lines_of, put_bytes, send_line, sent_then, write_failed, after_echo, next_turns,
  later_turns, at_line, upload_lines, upload,
}

concat-add_first : (b : ℕ) (lines : List Bytes) → concat (add_first b lines) ≡ b ∷ concat lines
concat-add_first b [] = refl
concat-add_first b (line ∷ lines) = refl

-- The lines are the file.
concat-lines_of : (file : Bytes) → concat (lines_of file) ≡ file
unfolding lines_of
concat-lines_of [] = refl
concat-lines_of (b ∷ bs) = elim (Bool-cases (b == b'\n')) [
  | inl e ↦ rw e (ap (λ l. b ∷ l) (concat-lines_of bs))
  | inr n ↦ rw n (concat-add_first b (lines_of bs) ∙ ap (λ l. b ∷ l) (concat-lines_of bs))
]

-- No newline in some bytes.
abbrev pub Unbroken : Bytes → Type 0
Unbroken = All (λ b. b ≢ b'\n')

-- The lines of a file: each is unbroken bytes and a newline, but the last one may end with the file,
-- if it is not empty.
abbrev pub AreLines : List Bytes → Type 0
AreLines [] = Unit
AreLines (line ∷ lines) =
    (((start : Bytes) × (line ≡ start ++ b'\n' ∷ []) × Unbroken start)
      ⊎ ((lines ≡ []) × (0 < length line) × Unbroken line))
    × AreLines lines

add_first-AreLines :
    (b : ℕ) (lines : List Bytes) → b ≢ b'\n' → AreLines lines → AreLines (add_first b lines)
add_first-AreLines b [] plain h = (inr (refl, omega arith, (plain, tt)), tt)
add_first-AreLines b (line ∷ lines) plain (inl (start, same, unbroken), more) =
    (inl (b ∷ start, ap (λ l. b ∷ l) same, (plain, unbroken)), more)
add_first-AreLines b (line ∷ lines) plain (inr (last, long, unbroken), more) =
    (inr (last, omega arith, (plain, unbroken)), more)

lines_of-AreLines : (file : Bytes) → AreLines (lines_of file)
unfolding lines_of
lines_of-AreLines [] = tt
lines_of-AreLines (b ∷ bs) = elim (Bool-cases (b == b'\n')) [
  | inl e ↦ rw e (inl ([], ap (λ x. x ∷ []) ((==_iff b b'\n').0 e), tt), lines_of-AreLines bs)
  | inr n ↦ rw n (add_first-AreLines b (lines_of bs) (ground (arith, n)) (lines_of-AreLines bs))
]

-- What the monitor's echo of each line comes to: one list of turns for each line.
abbrev pub echoes : Bool → List Bytes → List (List Turn) → List (Option IoError)
echoes sync [] answers = []
echoes sync (line ∷ lines) [] = (receive_echo [] line sync).failure ∷ echoes sync lines []
echoes sync (line ∷ lines) (turns ∷ answers) =
    (receive_echo turns line sync).failure ∷ echoes sync lines answers

-- The echoes that were received.
abbrev pub Received : List (Option IoError) → Type 0
Received = All (λ e. e ≡ none)

module _ {W : Type 0} (put : W → Bytes → W × Option Text) (taken : W → Bytes) where
  -- A writer that takes everything.
  pub record IsReliable : Type 0 where
    pub takes : (w : W) (bytes : Bytes) → (put w bytes).1 ≡ none
    pub adds : (w : W) (bytes : Bytes) → taken (put w bytes).0 ≡ taken w ++ bytes

  -- What an upload of lines leaves after some of them were sent: all of them and no error, when all
  -- echoes are received; or the first echo that is not received, as an error of its line, which is
  -- the last one that was sent.
  pub record Uploads (w : W) (n : ℕ) (lines : List Bytes) (replies : List (Option IoError))
      (r : W × Result ℕ IoError) : Type 0 where
    pub count : ℕ
    pub sent : taken r.0 ≡ taken w ++ concat (take count lines)
    pub ends :
        ((r.1 ≡ ok (n + count)) × (count ≡ length lines) × Received replies)
        ⊎ ((e : IoError) × (earlier : ℕ) × (r.1 ≡ err (at_line put (n + count) e))
            × (count ≡ suc earlier)
            × (count ≤ length lines)
            × Received (take earlier replies)
            × (get_elem? replies earlier ≡ some (some e)))

  sent_then-none :
      {B : Type 0} (fail : Text → B) (r : W × Option Text) (next : W → W × B)
      → r.1 ≡ none
      → sent_then put fail r next ≡ next r.0
  sent_then-none fail (w, none) next h = refl
  sent_then-none fail (w, some e) next h = absurd (grind (arith, h))

  echoes-step :
      (sync : Bool) (line : Bytes) (lines : List Bytes) (answers : List (List Turn))
      → (receive_echo (next_turns put answers) line sync).failure
          ∷ echoes sync lines (later_turns put answers)
        ≡ echoes sync (line ∷ lines) answers
  echoes-step sync line lines [] = refl
  echoes-step sync line lines (turns ∷ answers) = refl

  after_echo-Uploads :
      (w w' : W) (n : ℕ) (line : Bytes) (lines : List Bytes) (failure : Option IoError)
      (replies : List (Option IoError)) (rest : W × Result ℕ IoError)
      → taken w' ≡ taken w ++ line
      → Uploads w' (suc n) lines replies rest
      → Uploads w n (line ∷ lines) (failure ∷ replies) (after_echo put (suc n) failure w' rest)
  after_echo-Uploads w w' n line lines none replies rest here u = record {
    count = suc u.count;
    sent =
        u.sent
        ∙ ap (λ l. l ++ concat (take u.count lines)) here
        ∙ append_assoc (taken w) line (concat (take u.count lines));
    ends = elim u.ends [
      | inl (done, all, heard) ↦ inl (rw done (ap ok (omega arith)), omega arith, (refl, heard))
      | inr (e, earlier, stopped, place, within, heard, refused) ↦ inr (
        e,
        suc earlier,
        rw stopped (ap (λ q. err (at_line put q e)) (omega arith)),
        omega arith,
        omega arith,
        (refl, heard),
        refused,
      )
    ];
  }
  after_echo-Uploads w w' n line lines (some e) replies rest here u = record {
    count = 1;
    sent = here ∙ ap (λ l. taken w ++ l) (sym (append-nil line));
    ends =
        inr
          (e, 0, ap (λ q. err (at_line put q e)) (omega arith), omega arith, omega arith, tt, refl);
  }

  module _ (reliable : IsReliable) where
    put_bytes-takes : (bytes : Bytes) (w : W) → (put_bytes put w bytes).1 ≡ none
    unfolding put_bytes
    put_bytes-takes [] w = refl
    put_bytes-takes (b ∷ bs) w =
        rw
          (sent_then-none some (put w (b ∷ [])) (λ w'. put_bytes put w' bs)
            (reliable.takes w (b ∷ [])))
          (put_bytes-takes bs (put w (b ∷ [])).0)

    put_bytes-adds : (bytes : Bytes) (w : W) → taken (put_bytes put w bytes).0 ≡ taken w ++ bytes
    unfolding put_bytes
    put_bytes-adds [] w = sym (append-nil (taken w))
    put_bytes-adds (b ∷ bs) w =
        rw
          (sent_then-none some (put w (b ∷ [])) (λ w'. put_bytes put w' bs)
            (reliable.takes w (b ∷ [])))
          (put_bytes-adds bs (put w (b ∷ [])).0
            ∙ ap (λ l. l ++ bs) (reliable.adds w (b ∷ []))
            ∙ append_assoc (taken w) (b ∷ []) bs)

    send_line-takes : (slow : Bool) (w : W) (line : Bytes) → (send_line put slow w line).1 ≡ none
    send_line-takes true w line = put_bytes-takes line w
    send_line-takes false w line = reliable.takes w line

    send_line-adds :
        (slow : Bool) (w : W) (line : Bytes) → taken (send_line put slow w line).0 ≡ taken w ++ line
    send_line-adds true w line = put_bytes-adds line w
    send_line-adds false w line = reliable.adds w line

    upload_lines-Uploads :
        (slow sync : Bool) (lines : List Bytes) (w : W) (n : ℕ) (answers : List (List Turn))
        → Uploads w n lines
            (echoes sync lines answers)
            (upload_lines put slow sync w n lines answers)
    unfolding upload_lines
    upload_lines-Uploads slow sync [] w n answers = record {
      count = 0;
      sent = sym (append-nil (taken w));
      ends = inl (ap ok (omega arith), refl, tt);
    }
    upload_lines-Uploads slow sync (line ∷ lines) w n answers =
        let r = send_line put slow w line in
        let failure = (receive_echo (next_turns put answers) line sync).failure in
        let rest = upload_lines put slow sync r.0 (suc n) lines (later_turns put answers) in
        rw
          (sent_then-none (write_failed put) r
            (λ w'.
              after_echo put (suc n) failure w'
                (upload_lines put slow sync w' (suc n) lines (later_turns put answers)))
            (send_line-takes slow w line))
          (subst (λ l. Uploads w n (line ∷ lines) l (after_echo put (suc n) failure r.0 rest))
            (echoes-step sync line lines answers)
            (after_echo-Uploads w r.0 n line lines failure _ rest (send_line-adds slow w line)
              (upload_lines-Uploads slow sync lines r.0 (suc n) (later_turns put answers))))

    -- The lines of a file are whole: each is what stands up to a newline, with it, and the last may
    -- end with the file. Whatever the monitor answers, a writer that takes everything is given them in
    -- order. If the echo of each is received, all of them, and the result is their number; otherwise
    -- those up to the first line whose echo is not received, and the result is that failure, under the
    -- number of the line.
    pub upload-Uploads :
        (slow sync : Bool) (file : Bytes) (w : W) (answers : List (List Turn))
        → (concat (lines_of file) ≡ file)
          × AreLines (lines_of file)
          × Uploads w 0
              (lines_of file)
              (echoes sync (lines_of file) answers)
              (upload put slow sync w file answers)
    unfolding upload
    upload-Uploads slow sync file w answers = (
      concat-lines_of file,
      lines_of-AreLines file,
      upload_lines-Uploads slow sync (lines_of file) w 0 answers,
    )
