-- ===== src/Tests/Ends.antt =====
-- Runs from the client's commands to the queue, of the loops to their ends, and of the window.
use mathlib.Core.List.{flatten}
use qt_s5p6818_face_tracking.Base.{
  ℕ, ◌-◌, ◌≡◌, refl, inl, inr, Bool, true, false, List, [], ◌∷◌, ◌++◌, Bytes, Option, none, some,
  arith, append-nil,
}
use qt_s5p6818_face_tracking.Base.Text.{to_string}
use qt_s5p6818_face_tracking.Client.{connected, send_mode, send_servo_abs}
use qt_s5p6818_face_tracking.Core.Tracking.{pos}
use qt_s5p6818_face_tracking.Remote.{Intent, aim_at, step_by, track, requests, IsPrinted}
use qt_s5p6818_face_tracking.Remote.Delivery.{stream_of, IsQueued, requests-delivered}
use qt_s5p6818_face_tracking.Gimbal.{clamp}
use qt_s5p6818_face_tracking.Gimbal.Control.{round}
use qt_s5p6818_face_tracking.Remote.Steering.{popped, client_steers}
use qt_s5p6818_face_tracking.Server.Listener.{
  Wrapping, Pass, interrupted, incoming, create_server, bind_and_listen, run_listener,
}
use qt_s5p6818_face_tracking.Server.Sockets
use qt_s5p6818_face_tracking.Server.Sockets.{run_listener_balanced}
use qt_s5p6818_face_tracking.Session.{Session}
use qt_s5p6818_face_tracking.Session.Dispatch.{max_message, on_message, refuse}
use qt_s5p6818_face_tracking.Session.Ending.{run_closes}
use qt_s5p6818_face_tracking.Session.Run.{Tick, timed_out, hung_up, closed, run}
use qt_s5p6818_face_tracking.Stream.{waiting, drain_all, resume_all}
use qt_s5p6818_face_tracking.Stream.Settled.{IsSettled, drain_all-IsSettled}
use qt_s5p6818_face_tracking.Tests.Samples.{
  manager, disk_calls, link, locked, no_number, moments, mode_bytes, qt, up_client, opened,
}
use qt_s5p6818_face_tracking.Tests.Servos.{numbers, limits, face, home_state}
use qt_s5p6818_face_tracking.Ui.Inputs.{click_button, toggle_tls_box, event, react, react_all}
use qt_s5p6818_face_tracking.Ui.Consistent.{IsConsistent, is_command, window-IsConsistent}
use qt_s5p6818_face_tracking.Ui.Panel.{up}
use qt_s5p6818_face_tracking.Ui.Window.{Geometry, Saving, create_window}
use qt_s5p6818_face_tracking.Websocket.Conn.{Conn, drain_frames}
use qt_s5p6818_face_tracking.Websocket.Conn.Settled.{IsDrained, drain_frames_settled}

-- A reader of numbers of one digit.
abbrev digit : Bytes → Option ℕ
digit [] = none
digit (b ∷ bs) = some (b - 48)

five-IsPrinted : IsPrinted to_string digit 5
unfolding to_string
five-IsPrinted = record {
  numeral = (refl, tt);
  not_empty = omega arith;
  short = omega arith;
  before_comma = λ rest. refl;
  before_brace = λ rest. refl;
}

abbrev wishes : List (Intent ℕ)
wishes = step_by 5 5 ∷ track false ∷ []

abbrev wire_bytes : Bytes
wire_bytes = stream_of to_string (requests qt up_client wishes).calls

requests-delivered_example :
    (s' : Session ℕ Bool) × ((resume_all max_message refuse
          (on_message disk_calls manager digit 0 moments)
          (waiting opened [])
          ([] ∷ wire_bytes ∷ [])
        ≡ waiting s' [])
      × IsQueued to_string digit 0 disk_calls manager moments opened wishes s')
unfolding flatten send_mode
requests-delivered_example =
    requests-delivered to_string digit 0 disk_calls manager moments qt up_client opened wishes []
      (wire_bytes ∷ []) (λ fs e. refl) refl refl ((five-IsPrinted, five-IsPrinted), (tt, tt))
      (append-nil wire_bytes)

abbrev quiet_tick : Tick Unit
quiet_tick = record {
  stop = false;
  auth_ms = 10;
  polled = timed_out;
  frame_ms = 10;
  sent_ms = 10;
  latest = none;
}

abbrev last_tick : Tick Unit
last_tick = record quiet_tick { polled = hung_up }

run_closes_example :
    (s' : Session ℕ Bool) × ((us : List (Tick Unit))
      → run disk_calls manager no_number 0 moments 15 1 locked true
          ((quiet_tick ∷ []) ++ last_tick ∷ us)
        ≡ closed s')
run_closes_example =
    run_closes disk_calls manager no_number 0 moments 15 1 locked true (quiet_tick ∷ []) last_tick
      (inr (inl refl))

drain_all-IsSettled_example :
    IsSettled max_message refuse (on_message disk_calls manager no_number 0 moments) (
      drain_all max_message refuse
        (on_message disk_calls manager no_number 0 moments)
        opened
        (mode_bytes ++ (83 ∷ [])))
drain_all-IsSettled_example =
    drain_all-IsSettled max_message refuse (on_message disk_calls manager no_number 0 moments)
      opened (mode_bytes ++ (83 ∷ []))

-- A connection with a pong and half a header.
abbrev conn : Conn
conn = record { stream = link; closed = false; rx = 138 ∷ 128 ∷ 0 ∷ 0 ∷ 0 ∷ 0 ∷ 138 ∷ []; app = [] }

drain_frames_settled_example : IsDrained (drain_frames 8 conn)
drain_frames_settled_example = drain_frames_settled conn

abbrev geometry : Geometry Unit
geometry = record {
  target_rect = λ i. record { x = pos 0; y = pos 0; w = pos 4; h = pos 4 };
  contains = λ r p. true;
  center = λ r. record { x = pos 2; y = pos 2 };
  minus = λ a b. a;
}

abbrev saving : Saving
saving = record { path = []; opens = true; writes = true }

window-IsConsistent_example :
    let w =
      react_all numbers qt geometry
        (λ s. s)
        (create_window numbers up_client 5)
        (toggle_tls_box ∷ event 1 saving connected ∷ []) in
    IsConsistent w
    × (w.is_connected ≡ false
        → is_command {Image = Unit} (click_button up) ≡ true
        → (react numbers qt geometry (λ s. s) w (click_button up)).tcp ≡ w.tcp)
window-IsConsistent_example =
    window-IsConsistent numbers qt geometry (λ s. s) up_client 5
      (toggle_tls_box ∷ event 1 saving connected ∷ []) (click_button up)

abbrev aim_bytes : Bytes
aim_bytes = stream_of to_string (requests qt up_client (aim_at 5 5 ∷ [])).calls

abbrev aimed : List (ℕ × ℕ)
aimed = [] ++ (clamp numbers 5 10 170, clamp numbers 5 40 140) ∷ []

client_steers_example :
    (s' : Session ℕ Bool) × ((resume_all max_message refuse
          (on_message disk_calls manager digit 0 moments)
          (waiting opened [])
          ([] ∷ aim_bytes ∷ [])
        ≡ waiting s' [])
      × ((round numbers limits 4000 home_state
            (record { commands = popped (λ k. 100) s'.queue; now = 200; track = face })).servo
          ≡ aimed))
unfolding flatten send_servo_abs
client_steers_example =
    client_steers numbers limits 4000 to_string digit 0 disk_calls manager moments qt up_client
      opened [] 5 5 [] (aim_bytes ∷ []) home_state (λ k. 100) 200 face (λ fs e. refl) refl refl refl
      ((five-IsPrinted, five-IsPrinted), tt) (append-nil aim_bytes) (omega arith) (omega arith)

abbrev plain : Wrapping
plain = record { encrypted = false; websocket = false }

-- A connection, and the stop.
abbrev coming : Pass
coming = record { stop = false; polled = incoming (some 7) 0 }

abbrev stopping : Pass
stopping = record { stop = true; polled = interrupted }

run_listener_balanced_example :
    let s = (bind_and_listen (create_server 2 plain) (some 3) true true).0 in
    let r = run_listener s ((coming ∷ coming ∷ []) ++ stopping ∷ []) in
    (r.1 ≡ true) × ((r.0.listen_fd ≡ none) × Sockets.Holds r.0 none none)
run_listener_balanced_example =
    run_listener_balanced 2 plain (some 3) true true (coming ∷ coming ∷ []) stopping [] refl
