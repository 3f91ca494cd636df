-- ===== src/Tests/Sessions.antt =====
-- Runs of the sessions and of the listeners.
use mathlib.Core.List.{flatten}
use qt_s5p6818_face_tracking.Base.{
  ℕ, suc, ◌+◌, ◌<◌, ◌≡◌, refl, ap, ◌⊎◌, true, false, [], ◌∷◌, Bytes, none, some, arith, drop,
}
use qt_s5p6818_face_tracking.Auth.{token_key}
use qt_s5p6818_face_tracking.Core.Registry.{count, adopt, empty_registry}
use qt_s5p6818_face_tracking.Json.{get_string}
use qt_s5p6818_face_tracking.Protocol.{hello, type_code, decode_header, get_u32, get_u16}
use qt_s5p6818_face_tracking.Server.{
  World, waiting, admitted, client_cap, check, Steps, stop, step, check_step, adopt_step,
}
use qt_s5p6818_face_tracking.Server.Cap.{clients_capped, idle}
use qt_s5p6818_face_tracking.Session.Dispatch.{bytes, on_message, max_message, refuse}
use qt_s5p6818_face_tracking.Session.Gate.{gate_holds}
use qt_s5p6818_face_tracking.Session.Run.{Tick, readable, timed_out, closed, advertise, run}
use qt_s5p6818_face_tracking.Session.Stranger.{stranger_dropped, IsStranger, IsUnmoved}
use qt_s5p6818_face_tracking.Stream.{Scan, message, scan, waiting, ended, resume_all}
use qt_s5p6818_face_tracking.Tests.Samples.{
  manager, disk_calls, locked, no_number, moments, mode_bytes,
}

-- The type of a message that a scan finds.
abbrev type_in : Scan → ℕ
type_in (message t payload rest) = t
type_in _ = 0

scan_mode : scan max_message mode_bytes ≡ message 33 [] []
unfolding scan decode_header get_u32 get_u16
scan_mode = refl

mode-IsStranger : IsStranger (107 ∷ []) mode_bytes
unfolding type_code
mode-IsStranger body rest e = absurd (omega (arith, ap type_in (rw scan_mode at e)))

abbrev first_tick : Tick Unit
first_tick = record {
  stop = false;
  auth_ms = 10;
  polled = readable (bytes mode_bytes);
  frame_ms = 10;
  sent_ms = 10;
  latest = none;
}

abbrev late_tick : Tick Unit
late_tick = record {
  stop = false;
  auth_ms = 5002;
  polled = timed_out;
  frame_ms = 5002;
  sent_ms = 5002;
  latest = none;
}

stranger_dropped_example :
    IsUnmoved
      (advertise locked)
      mode_bytes
      (run disk_calls manager no_number 0 moments 15 1 locked true (first_tick ∷ []))
    × (run disk_calls manager no_number 0 moments 15 1 locked true (first_tick ∷ late_tick ∷ [])
        ≡ closed (advertise locked))
stranger_dropped_example =
    stranger_dropped disk_calls manager no_number 0 moments 15 1 locked (first_tick ∷ []) late_tick
      refl (omega arith, tt) (λ e. cc) (omega arith) mode-IsStranger (omega arith) (omega arith)

abbrev GateResult : Type 0
GateResult =
    (resume_all max_message refuse (on_message disk_calls manager no_number 0 moments)
        (waiting locked []) ((83 ∷ []) ∷ drop 1 mode_bytes ∷ [])
      ≡ waiting locked mode_bytes)
    ⊎ (resume_all max_message refuse (on_message disk_calls manager no_number 0 moments)
          (waiting locked []) ((83 ∷ []) ∷ drop 1 mode_bytes ∷ [])
        ≡ ended locked)
    ⊎ ((body : Bytes) × (rest : Bytes) × (scan max_message mode_bytes
          ≡ message (type_code hello) body rest)
        × (get_string body token_key ≡ some (107 ∷ [])))

gate_holds_example : GateResult
unfolding flatten
gate_holds_example =
    gate_holds disk_calls manager no_number 0 moments locked (83 ∷ []) (drop 1 mode_bytes ∷ []) refl
      (omega arith, tt) (omega arith) (λ e. cc)

-- Two listeners that check before either adopts: two clients, with a cap of one.
abbrev two_clients : World
two_clients = record {
  registry = adopt (adopt empty_registry 5) 6;
  listeners = waiting ∷ waiting ∷ [];
}

both_in : Steps 1 (idle 2) two_clients
unfolding check count client_cap
both_in =
    step
      (step
        (step (step (stop (idle 2)) (check_step empty_registry [] (waiting ∷ []) 5))
          (check_step empty_registry (admitted 5 ∷ []) [] 6))
        (adopt_step empty_registry [] (admitted 6 ∷ []) 5))
      (adopt_step (adopt empty_registry 5) (waiting ∷ []) [] 6)

clients_capped_example :
    (count (adopt (adopt empty_registry 5) 6) < client_cap 1 + 2)
    × ((adopt (adopt empty_registry 5) 6).client_count ≡ count (adopt (adopt empty_registry 5) 6))
clients_capped_example = clients_capped 1 2 two_clients both_in

-- So the cap is exceeded by one.
cap_exceeded_test : count two_clients.registry ≡ suc (client_cap 1)
unfolding count adopt client_cap
cap_exceeded_test = refl
