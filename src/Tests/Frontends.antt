-- ===== src/Tests/Frontends.antt =====
-- Runs of the frontend's functions of tools/te-rs/src/main.rs.
use sw_tos.Base.{◌≢◌, [], ◌∷◌, some, ◌≡◌, refl, arith, All, codes, starts_with}
use sw_tos.Frontend.CopyMode.{CopyKeeps, handle_copy_input, handle_copy_input-Keeps}
use sw_tos.Frontend.Requests.Delivery.{unescaped, unescaped-escaped}
use sw_tos.Frontend.Requests.{TimeMode, escaped, time_frame, parse_prefix, time_mode_for_title}
use sw_tos.Ui.Desktop.{new_desktop}

unescaped-escaped_example :
    (unescaped (escaped (0xff ∷ 0x1d ∷ 7 ∷ [])) ≡ 0xff ∷ 0x1d ∷ 7 ∷ [])
    × All (λ b. b ≢ 0x1d) (escaped (0xff ∷ 0x1d ∷ 7 ∷ []))
unescaped-escaped_example = unescaped-escaped (0xff ∷ 0x1d ∷ 7 ∷ [])

handle_copy_input-Keeps_example : CopyKeeps (handle_copy_input (new_desktop 100) b'k' 0)
handle_copy_input-Keeps_example = handle_copy_input-Keeps (new_desktop 100) b'k' 0 (omega arith)

ticks_escaped : time_frame TimeMode.uptime 0x1dff07 ≡ 0xff ∷ 1 ∷ 7 ∷ 0xff ∷ 0 ∷ 0xff ∷ 3 ∷ []
unfolding time_frame escaped
ticks_escaped = refl

control_prefix : parse_prefix (b'^' ∷ b'O' ∷ []) ≡ some 15
unfolding parse_prefix
control_prefix = refl

monitor_counts_time : time_mode_for_title (codes "mon 5") ≡ some TimeMode.uptime
unfolding time_mode_for_title starts_with
monitor_counts_time = refl
