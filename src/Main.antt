-- ===== src/Main.antt =====
-- terminal/src/main.cpp and core/StoppableThread.h: the program from its start to its end, as the
-- calls it makes on its threads and devices. A signal ends the wait. Each `return` also runs the
-- destructors of what has been made, in reverse order.
pub mod Settings
pub mod Shutdown
use qt_s5p6818_face_tracking.Base.{
  Bool, true, false, not, ◌&&◌, List, [], ◌∷◌, ◌++◌, ℕ, Option, none, some, equal, if◌then◌else◌,
}
use qt_s5p6818_face_tracking.Main.Settings.{Config}

-- `running_`, and whether `th_` can be joined.
pub record StoppableThread : Type 0 where
  pub running : Bool
  pub joinable : Bool

unfoldable pub start_thread : StoppableThread → StoppableThread
start_thread t = if t.running then t else record { running = true; joinable = true }

unfoldable pub stop_thread : StoppableThread → StoppableThread
stop_thread t = record t { running = false }

-- `none` when it waits for a thread that nothing has told to end.
unfoldable pub join_thread : StoppableThread → Option StoppableThread
join_thread t =
    if not t.joinable
    then some t
    else if t.running
    then none
    else some (record t { joinable = false })

-- The threads of the program; `server` and the next three are TcpServers.
pub data Worker : Type 0 where
  vision display business server ws_server tls_server wss_server : Worker

pub data Call : Type 0 where
  open_camera open_display init_servo load_cascade : Bool → Call
  bind_and_listen : Worker → Bool → Call
  start stop join : Worker → Call
  wait stop_all release_servo close_camera close_display : Call

-- What the calls give: `with_tls` is whether the binary has TLS, `tls_loads` whether the certificate
-- and the key can be read.
pub record Answers : Type 0 where
  pub camera_opens : Bool
  pub display_opens : Bool
  pub servo_inits : Bool
  pub cascade_loads : Bool
  pub binds : Worker → Bool
  pub with_tls : Bool
  pub tls_loads : Bool

-- The destructor of a thread's object.
unfoldable pub destroy : Worker → List Call
destroy w = stop w ∷ join w ∷ []

-- The destructors of the devices and of the registry, which all paths come to.
unfoldable pub unwind_devices : List Call
unwind_devices = release_servo ∷ close_display ∷ close_camera ∷ stop_all ∷ []

-- The destructors of the threads that are made in every run.
unfoldable pub unwind_threads : List Call
unfolding destroy unwind_devices
unwind_threads =
    destroy server ++ (destroy business ++ (destroy display ++ (destroy vision ++ unwind_devices)))

-- Calls on a server that there may not be.
unfoldable pub if_up : Bool → List Call → List Call
if_up up calls = if up then calls else []

-- The binding of an optional server; one that cannot bind is destroyed.
unfoldable pub try_bind : Worker → Bool → List Call
unfolding destroy
try_bind w binds = bind_and_listen w binds ∷ (if binds then [] else destroy w)

-- `server.stop(); server.join();`
unfoldable pub end_thread : Worker → List Call
end_thread w = stop w ∷ join w ∷ []

-- The program while it serves, with the optional servers that there are.
unfoldable pub serve : Bool → Bool → Bool → List Call
unfolding if_up
serve ws tls wss =
    start vision
    ∷ start display
    ∷ start business
    ∷ start server
    ∷ (if_up ws (start ws_server ∷ [])
        ++ (if_up tls (start tls_server ∷ []) ++ (if_up wss (start wss_server ∷ []) ++ wait ∷ [])))

unfoldable pub shut_down : Bool → Bool → Bool → List Call
unfolding if_up end_thread
shut_down ws tls wss =
    end_thread server
    ++ (if_up ws (end_thread ws_server)
        ++ (if_up tls (end_thread tls_server)
            ++ (if_up wss (end_thread wss_server)
                ++ (end_thread vision
                    ++ (end_thread business
                        ++ (end_thread display
                            ++ stop_all ∷ release_servo ∷ close_camera ∷ close_display ∷ []))))))

unfoldable pub unwind_all : Bool → Bool → Bool → List Call
unfolding if_up destroy unwind_threads
unwind_all ws tls wss =
    if_up wss (destroy wss_server)
    ++ (if_up tls (destroy tls_server) ++ (if_up ws (destroy ws_server) ++ unwind_threads))

-- From the start of the threads on.
unfoldable pub run_threads : Bool → Bool → Bool → List Call
unfolding serve shut_down unwind_all
run_threads ws tls wss = serve ws tls wss ++ (shut_down ws tls wss ++ unwind_all ws tls wss)

module _ {R : Type 0} where
  -- Whether the encrypted servers are tried.
  unfoldable pub tls_ready : Config R → Answers → Bool
  unfolding equal
  tls_ready cfg a =
      a.with_tls
      && (not (equal cfg.tls_cert_file []) && (not (equal cfg.tls_key_file []) && a.tls_loads))

  unfoldable pub bind_optional : Config R → Answers → List Call
  unfolding if_up try_bind tls_ready
  bind_optional cfg a =
      if_up cfg.ws_enabled (try_bind ws_server (a.binds ws_server))
      ++ if_up (tls_ready cfg a) (
          try_bind tls_server (a.binds tls_server)
          ++ if_up cfg.ws_enabled (try_bind wss_server (a.binds wss_server)))

  -- After the first server is bound.
  unfoldable pub main_bound : Config R → Answers → List Call
  unfolding bind_optional run_threads tls_ready
  main_bound cfg a =
      let tls = tls_ready cfg a in
      bind_optional cfg a
      ++ run_threads (cfg.ws_enabled && a.binds ws_server) (tls && a.binds tls_server)
          (tls && (cfg.ws_enabled && a.binds wss_server))

  -- The calls, and the exit code.
  unfoldable pub main : Config R → Answers → List Call × ℕ
  unfolding unwind_devices unwind_threads main_bound
  main cfg a =
      let opened = open_display a.display_opens ∷ init_servo a.servo_inits ∷ [] in
      if not a.camera_opens
      then (open_camera false ∷ unwind_devices, 1)
      else if not a.cascade_loads
      then (open_camera true ∷ (opened ++ load_cascade false ∷ close_camera ∷ unwind_devices), 1)
      else if not (a.binds server)
      then (
        open_camera true
            ∷ (opened
                ++ (load_cascade true
                    ∷ bind_and_listen server false
                    ∷ close_camera
                    ∷ unwind_threads)),
        1,
      )
      else (
        open_camera true
            ∷ (opened ++ (load_cascade true ∷ bind_and_listen server true ∷ main_bound cfg a)),
        0,
      )
