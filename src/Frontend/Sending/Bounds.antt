-- ===== src/Frontend/Sending/Bounds.antt =====
-- The bound of the serial queue of tools/te-rs/src/main.rs, and what is sent into it.
use sw_tos.Base.{ℕ, ◌≤◌, List, [], ◌∷◌, Option, none, some, Bytes, length}
use sw_tos.Frontend.Requests.Delivery.{queue_serial-cases}
use sw_tos.Frontend.Requests.{max_windows_serial_backlog, multiplexed_input_frame}
use sw_tos.Frontend.Sending.{send, send_encoded, send_each, then_do}
use sw_tos.Frontend.Session.{Session}

-- At most the bound.
abbrev pub Fits : Session → Type 0
Fits s = length s.serial_output ≤ max_windows_serial_backlog

abbrev pub AllFit : Option Session → Type 0
AllFit none = Unit
AllFit (some s) = Fits s

pub send-Fits : (bytes : Bytes) (s : Session) → Fits s → Fits (send bytes s)
unfolding send
send-Fits bytes s h = (queue_serial-cases s.serial_output bytes h).0

pub send_encoded-AllFit :
    (bytes : Option Bytes) (s : Session) → Fits s → AllFit (send_encoded bytes s)
unfolding send_encoded
send_encoded-AllFit none s h = tt
send_encoded-AllFit (some bytes) s h = send-Fits bytes s h

pub then_do-AllFit :
    (o : Option Session) (next : Session → Option Session)
    → AllFit o
    → ((t : Session) → Fits t → AllFit (next t))
    → AllFit (then_do o next)
then_do-AllFit none next h k = tt
then_do-AllFit (some t) next h k = k t h

pub send_each-AllFit :
    (payload : Bytes) (channels : List ℕ) (s : Session)
    → Fits s
    → AllFit (send_each payload channels s)
unfolding send_each
send_each-AllFit payload [] s h = h
send_each-AllFit payload (channel ∷ channels) s h =
    then_do-AllFit _ (send_each payload channels)
      (send_encoded-AllFit (multiplexed_input_frame channel payload) s h)
      (send_each-AllFit payload channels)
