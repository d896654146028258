-- ===== src/Tests/Terminals.antt =====
-- Runs of the plain terminal of tools/te-rs/src/main.rs.
use sw_tos.Base.{List, [], ◌∷◌, concat, some, false, ◌≡◌, refl, Bytes, codes, from_utf8_lossy}
use sw_tos.Frontend.Requests.{TimeMode}
use sw_tos.Frontend.Terminal.{Terminal}
use sw_tos.Frontend.Terminal.Prompt.{serial_reads, Watched, serial_reads-prompt}
use sw_tos.Frontend.Upload.{prompt_for_file}
use sw_tos.Protocol.Connection

abbrev counting : Terminal
counting = record {
  connection = Connection.fresh;
  time_mode = some TimeMode.uptime;
  next_frame = 0;
  menu_prompt = false;
  prompt_tail = [];
  input_line = [];
  discard_newline = false;
  tty = [];
  serial = [];
}

-- The prompt arrives in three reads.
abbrev reads : List Bytes
reads = codes "done Cho" ∷ codes "ic" ∷ codes "e: " ∷ []

serial_reads-prompt_example : Watched (concat reads) counting (serial_reads reads counting)
serial_reads-prompt_example = serial_reads-prompt reads counting refl

-- A name is typed, with a letter erased.
name_typed : (prompt_for_file (97 ∷ 98 ∷ 8 ∷ 99 ∷ 13 ∷ [])).answer ≡ some (some (codes "ac"))
unfolding prompt_for_file from_utf8_lossy
name_typed = refl
