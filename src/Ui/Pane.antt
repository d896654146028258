-- ===== src/Ui/Pane.antt =====
-- A pane of tools/te-rs/src/ui.rs: its text, line by line, and what is shown of it.
-- A `String` is the list of its code points, and a `VecDeque` the list from front to back.
pub mod Bounds
use sw_tos.Base.{
  ℕ, suc, ◌+◌, ◌-◌, List, [], ◌∷◌, ◌++◌, Option, none, some, Bool, true, false, not, ◌&&◌, ◌||◌,
  ltb, leb, ◌==◌, if◌then◌else◌, Bytes, Text, codes, length, take, drop,
}

abbrev pub default_scrollback : ℕ
default_scrollback = 1000

abbrev pub max_line_bytes : ℕ
max_line_bytes = 4096

pub data PaneKind : Type 0 where
  shell application debugger resources : PaneKind

-- `PaneKind::ALL`.
abbrev pub all_kinds : List PaneKind
all_kinds = shell ∷ application ∷ debugger ∷ []

-- `PaneKind::title` and `PaneKind::default_channel`.
abbrev pub kind_title : PaneKind → Text
kind_title shell = codes "Shell"
kind_title application = codes "Application"
kind_title debugger = codes "Debugger"
kind_title resources = codes "Resources"

abbrev pub default_channel : PaneKind → ℕ
default_channel shell = 0
default_channel application = 1
default_channel debugger = 254
default_channel resources = 255

-- The derived `==` of kinds.
abbrev kind_number : PaneKind → ℕ
kind_number shell = 0
kind_number application = 1
kind_number debugger = 2
kind_number resources = 3

abbrev pub kind_eq : PaneKind → PaneKind → Bool
kind_eq a b = kind_number a == kind_number b

pub record Pane : Type 0 where
  pub kind : PaneKind
  pub channel : ℕ
  pub title : Text
  pub lines : List Text
  pub current : Text
  pub scrollback_limit : ℕ
  pub alert : Bool
  pub ran : Bool
  pub ended : Bool
  pub absent : ℕ
  pub scroll_offset : ℕ
  pub horizontal_offset : ℕ
  pub search : Option Text

-- `Pane::new`.
abbrev pub new_pane : PaneKind → ℕ → Text → ℕ → Pane
new_pane kind channel title limit = record {
  kind = kind;
  channel = channel;
  title = title;
  lines = [];
  current = [];
  scrollback_limit = limit;
  alert = false;
  ran = false;
  ended = false;
  absent = 0;
  scroll_offset = 0;
  horizontal_offset = 0;
  search = none;
}

-- `len` of a `String`: the bytes of its UTF-8.
abbrev char_bytes : ℕ → ℕ
char_bytes c = if ltb c 0x80 then 1 else if ltb c 0x800 then 2 else if ltb c 0x10000 then 3 else 4

unfoldable pub byte_length : Text → ℕ
byte_length [] = 0
byte_length (c ∷ cs) = char_bytes c + byte_length cs

-- `pop` of a `String`.
unfoldable pub without_last : Text → Text
without_last [] = []
without_last (c ∷ []) = []
without_last (c ∷ d ∷ cs) = c ∷ without_last (d ∷ cs)

-- `while self.lines.len() > self.scrollback_limit { self.lines.pop_front(); }`
unfoldable pub trim : ℕ → List Text → List Text
trim limit [] = []
trim limit (line ∷ lines) =
    if ltb limit (length (line ∷ lines)) then trim limit lines else line ∷ lines

unfoldable pub finish_line : Pane → Pane
unfolding trim
finish_line p = record p {
  lines = trim p.scrollback_limit (p.lines ++ p.current ∷ []);
  current = [];
}

-- The match on one byte in `Pane::push`.
unfoldable pub put_byte : Pane → ℕ → Pane
unfolding finish_line without_last
put_byte p byte =
    if byte == b'\n'
    then finish_line p
    else if byte == b'\r'
    then record p { current = [] }
    else if byte == 0x0c
    then record p { lines = []; current = []; scroll_offset = 0 }
    else if byte == 0x08 || byte == 0x7f
    then record p { current = without_last p.current }
    else if leb 0x20 byte && leb byte 0x7e
    then record p { current = p.current ++ byte ∷ [] }
    else record p { current = p.current ++ 0xfffd ∷ [] }

-- The `if` behind it.
unfoldable pub break_line : Pane → Pane
unfolding finish_line byte_length
break_line p = if leb max_line_bytes (byte_length p.current) then finish_line p else p

-- `Pane::push`.
unfoldable pub push : Pane → Bytes → Pane
unfolding put_byte break_line
push p [] = p
push p (byte ∷ bytes) = push (break_line (put_byte p byte)) bytes

abbrev pub is_empty : Text → Bool
is_empty [] = true
is_empty (c ∷ cs) = false

-- `Pane::visible_lines`.
unfoldable pub visible_lines : Pane → ℕ → List Text
visible_lines p height =
    let complete = height - (if not (is_empty p.current) then 1 else 0) in
    let end = length p.lines - p.scroll_offset in
    let start = end - complete in
    let output = take (end - start) (drop start p.lines) in
    if p.scroll_offset == 0 && not (is_empty p.current) && ltb (length output) height
    then output ++ p.current ∷ []
    else output
