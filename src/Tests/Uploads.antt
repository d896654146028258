-- ===== src/Tests/Uploads.antt =====
-- Uploads of tools/te-rs/src/main.rs to a monitor that echoes.
use sw_tos.Base.{List, [], ◌∷◌, ◌++◌, concat, Option, none, true, ◌≡◌, ◌↔◌, refl, Bytes, Text}
use sw_tos.Frontend.Monitor.{Turn, arrived, quiet, interrupted, receive_echo}
use sw_tos.Frontend.Upload.{lines_of, upload}
use sw_tos.Frontend.Monitor.Echoed.{contents, Begins, receive_echo_iff}
use sw_tos.Frontend.Upload.Sent.{AreLines, IsReliable, Uploads, echoes, upload-Uploads}

-- The echo of two bytes, with a pause and a signal between them.
abbrev answer : List Turn
answer = arrived 79 ∷ quiet ∷ interrupted ∷ arrived 10 ∷ arrived 62 ∷ []

receive_echo_iff_example :
    ((receive_echo answer (79 ∷ 10 ∷ []) true).failure ≡ none)
    ↔ Begins (contents answer) (79 ∷ 10 ∷ [])
receive_echo_iff_example = receive_echo_iff (79 ∷ 10 ∷ []) answer (tt, (tt, (tt, (tt, (tt, tt)))))

abbrev wire : Bytes → Bytes → Bytes × Option Text
wire w bytes = (w ++ bytes, none)

abbrev on_wire : Bytes → Bytes
on_wire w = w

wire-IsReliable : IsReliable wire on_wire
wire-IsReliable = record { takes = λ w bytes. refl; adds = λ w bytes. refl }

-- The second line is not echoed.
upload-Uploads_example :
    (concat (lines_of (79 ∷ 10 ∷ 80 ∷ 10 ∷ 81 ∷ [])) ≡ 79 ∷ 10 ∷ 80 ∷ 10 ∷ 81 ∷ [])
    × AreLines (lines_of (79 ∷ 10 ∷ 80 ∷ 10 ∷ 81 ∷ []))
    × Uploads wire on_wire [] 0
        (lines_of (79 ∷ 10 ∷ 80 ∷ 10 ∷ 81 ∷ []))
        (echoes true (lines_of (79 ∷ 10 ∷ 80 ∷ 10 ∷ 81 ∷ [])) (answer ∷ answer ∷ []))
        (upload wire true true [] (79 ∷ 10 ∷ 80 ∷ 10 ∷ 81 ∷ []) (answer ∷ answer ∷ []))
upload-Uploads_example =
    upload-Uploads wire on_wire wire-IsReliable true true (79 ∷ 10 ∷ 80 ∷ 10 ∷ 81 ∷ []) []
      (answer ∷ answer ∷ [])
