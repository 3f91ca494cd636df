-- ===== src/Main/Shutdown.antt =====
-- terminal/src/main.cpp: every end of the program is orderly.
use qt_s5p6818_face_tracking.Base.{
  ℕ, ◌≡◌, refl, Bool, true, false, not, ◌&&◌, ◌||◌, List, [], ◌∷◌, ◌++◌, Option, none, some, ◌>>=◌,
  if◌then◌else◌, if_lem, ◌==◌, ltb,
}
use qt_s5p6818_face_tracking.Base.Replay.{replay}
use qt_s5p6818_face_tracking.Main.{
  Worker, vision, display, business, server, ws_server, tls_server, wss_server, Call, open_camera,
  open_display, init_servo, load_cascade, bind_and_listen, start, stop, join, wait, stop_all,
  release_servo, close_camera, close_display, Answers, main, main_bound, bind_optional, tls_ready,
  if_up, try_bind, unwind_devices, unwind_threads, run_threads, StoppableThread, start_thread,
  stop_thread, join_thread,
}
use qt_s5p6818_face_tracking.Main.Settings.{Config}

-- What there is at one moment: the threads, the bound sockets, the devices held, whether the camera
-- works and the detector has its cascade, and whether clients may be connected.
pub record World : Type 0 where
  pub sees : Bool
  pub detects : Bool
  pub threads : Worker → StoppableThread
  pub bound : Worker → Bool
  pub camera : Bool
  pub display : Bool
  pub servo : Bool
  pub sessions : Bool

abbrev pub nothing_made : World
nothing_made = record {
  sees = false;
  detects = false;
  threads = λ w. record { running = false; joinable = false };
  bound = λ w. false;
  camera = false;
  display = false;
  servo = false;
  sessions = false;
}

abbrev number : Worker → ℕ
number vision = 0
number display = 1
number business = 2
number server = 3
number ws_server = 4
number tls_server = 5
number wss_server = 6

abbrev set : {A : Type 0} → (Worker → A) → Worker → A → Worker → A
set f w a v = if number v == number w then a else f v

abbrev is_server : Worker → Bool
is_server w = ltb 2 (number w)

-- What a thread needs when it starts: the vision thread a camera that has been opened and a cascade
-- that has been loaded, the display thread and the control loop that their devices have been tried
-- (they do without), a server its bound socket.
abbrev is_served : World → Worker → Bool
is_served w vision = w.sees && w.detects
is_served w display = w.display
is_served w business = w.servo
is_served w v = w.bound v

abbrev is_listening : World → Bool
is_listening w =
    (w.threads server).joinable
    || ((w.threads ws_server).joinable
        || ((w.threads tls_server).joinable || (w.threads wss_server).joinable))

-- What a call does; `none` is a thread started without what it needs, a device closed while its
-- thread may run, clients dropped while a server may take new ones, or a join that does not end. A
-- device is held from the call that opens it, even where that fails.
abbrev pub effect : World → Call → Option World
effect w (open_camera done) = some (record w { camera = true; sees = done })
effect w (open_display done) = some (record w { display = true })
effect w (init_servo done) = some (record w { servo = true })
effect w (load_cascade done) = some (record w { detects = done })
effect w (bind_and_listen v done) = some (record w { bound = set w.bound v done })
effect w (start v) =
    if is_served w v
    then some (record w {
      threads = set w.threads v (start_thread (w.threads v));
      sessions = w.sessions || is_server v;
    })
    else none
effect w (stop v) = some (record w { threads = set w.threads v (stop_thread (w.threads v)) })
effect w (join v) = do
  t ← join_thread (w.threads v)
  some (record w { threads = set w.threads v t })
effect w wait = some w
effect w stop_all = if is_listening w then none else some (record w { sessions = false })
effect w release_servo =
    if (w.threads business).joinable then none else some (record w { servo = false })
effect w close_camera =
    if (w.threads vision).joinable then none else some (record w { camera = false; sees = false })
effect w close_display =
    if (w.threads display).joinable then none else some (record w { display = false })

-- Nothing runs, and nothing is held.
abbrev pub is_at_rest : World → Bool
is_at_rest w = not (
    is_listening w
    || ((w.threads vision).joinable
        || ((w.threads display).joinable
            || ((w.threads business).joinable
                || (w.camera || (w.display || (w.servo || w.sessions)))))))

-- The calls can all be made, and at the end nothing runs and nothing is held.
abbrev pub IsOrderly : List Call → Type 0
IsOrderly cs = (w : World) × ((replay effect nothing_made cs ≡ some w) × (is_at_rest w ≡ true))

-- Whether any thread was started.
abbrev pub is_started : List Call → Bool
is_started [] = false
is_started (start w ∷ cs) = true
is_started (c ∷ cs) = is_started cs

abbrev pub IsGood : List Call × ℕ → Type 0
IsGood r = IsOrderly r.0 × (is_started r.0 ≡ (r.1 == 0))

-- The whole run, by which of the servers are tried and which can bind.
served :
    (ws tls bw bt bs : Bool) (shows moves : Bool)
    → IsGood (
      open_camera true
          ∷ open_display shows
          ∷ init_servo moves
          ∷ load_cascade true
          ∷ bind_and_listen server true
          ∷ ((if_up ws (try_bind ws_server bw)
                ++ if_up tls (try_bind tls_server bt ++ if_up ws (try_bind wss_server bs)))
              ++ run_threads (ws && bw) (tls && bt) (tls && (ws && bs))),
      0,
    )
unfolding run_threads try_bind start_thread stop_thread join_thread
served false false bw bt bs shows moves = ((_, (refl, refl)), refl)
served false true bw false bs shows moves = ((_, (refl, refl)), refl)
served false true bw true bs shows moves = ((_, (refl, refl)), refl)
served true false false bt bs shows moves = ((_, (refl, refl)), refl)
served true false true bt bs shows moves = ((_, (refl, refl)), refl)
served true true false false false shows moves = ((_, (refl, refl)), refl)
served true true false false true shows moves = ((_, (refl, refl)), refl)
served true true false true false shows moves = ((_, (refl, refl)), refl)
served true true false true true shows moves = ((_, (refl, refl)), refl)
served true true true false false shows moves = ((_, (refl, refl)), refl)
served true true true false true shows moves = ((_, (refl, refl)), refl)
served true true true true false shows moves = ((_, (refl, refl)), refl)
served true true true true true shows moves = ((_, (refl, refl)), refl)

-- Whichever calls fail, the program starts the vision thread only when the camera has been opened
-- and the cascade loaded, the display thread and the control loop only after their devices have
-- been tried, a server only when its socket is bound; it closes a device only when the thread
-- that uses it is joined, drops the clients only when no server runs, joins only threads told to
-- stop, and ends with nothing running or held; it exits with 0 exactly when it has started its
-- threads.
pub main_orderly : {R : Type 0} (cfg : Config R) (a : Answers) → IsGood (main cfg a)
unfolding main stop_thread join_thread main_bound bind_optional
main_orderly cfg a =
    let opened = open_display a.display_opens ∷ init_servo a.servo_inits ∷ [] in
    let no_camera = open_camera false ∷ unwind_devices in
    let no_cascade =
      open_camera true ∷ (opened ++ load_cascade false ∷ close_camera ∷ unwind_devices) in
    let no_socket =
      open_camera true
      ∷ (opened
          ++ (load_cascade true ∷ bind_and_listen server false ∷ close_camera ∷ unwind_threads)) in
    let bound =
      open_camera true
      ∷ (opened ++ (load_cascade true ∷ bind_and_listen server true ∷ main_bound cfg a)) in
    if_lem {A = List Call × ℕ} IsGood (not a.camera_opens) (no_camera, 1)
      (if not a.cascade_loads
        then (no_cascade, 1)
        else if not (a.binds server)
        then (no_socket, 1)
        else (bound, 0))
      (λ e. ((_, (refl, refl)), refl))
      (λ e.
        if_lem {A = List Call × ℕ} IsGood (not a.cascade_loads) (no_cascade, 1)
          (if not (a.binds server) then (no_socket, 1) else (bound, 0))
          (λ f. ((_, (refl, refl)), refl))
          (λ f.
            if_lem {A = List Call × ℕ} IsGood (not (a.binds server)) (no_socket, 1) (bound, 0)
              (λ g. ((_, (refl, refl)), refl))
              (λ g.
                served cfg.ws_enabled (tls_ready cfg a) (a.binds ws_server) (a.binds tls_server)
                  (a.binds wss_server) a.display_opens a.servo_inits)))
