-- ===== src/Server.antt =====
-- terminal/src/net/TcpServer.cpp: the listeners. main.cpp starts up to four of them (TCP and
-- WebSocket, each also over TLS), one thread each, on one ClientRegistry. `acceptOne` locks the
-- registry twice, in `count` and in `adopt`, and another thread may run in between: so it is two
-- steps here, `check` and `adopt`, and the listener's `Phase` is where it stands.
pub mod Cap
pub mod Listener
pub mod Sockets
use qt_s5p6818_face_tracking.Base.{
  ℕ, zero, suc, ◌==◌, Bool, true, false, not, List, [], ◌∷◌, ◌++◌, ◌<◌, ltb, if◌then◌else◌,
}
use qt_s5p6818_face_tracking.Core.Registry.{Registry, Entry, adopt, reap_finished, count}

-- `admitted` holds the session of a socket that passed the check and is not adopted yet.
pub data Phase : Type 0 where
  waiting : Phase
  admitted : ℕ → Phase

-- The constructor's `maxClients > 0 ? maxClients : 1`.
unfoldable pub client_cap : ℕ → ℕ
client_cap zero = 1
client_cap (suc n) = suc n

-- `acceptOne` up to the check of the cap. `session` is the session that the new socket is for;
-- at the cap the socket is closed instead.
unfoldable pub check : ℕ → Registry → ℕ → Phase
check max_clients r session =
    if ltb (count r) (client_cap max_clients) then admitted session else waiting

-- A session's own thread ends its loop: `ClientSession::run` sets its flag.
unfoldable pub finish_session : ℕ → List Entry → List Entry
finish_session session [] = []
finish_session session (e ∷ es) =
    let rest = finish_session session es in
    if session == e.session then record e { finished = true } ∷ rest else e ∷ rest

-- What the listeners and the registry are at one moment.
pub record World : Type 0 where
  pub registry : Registry
  pub listeners : List Phase

-- One step of one thread.
pub data Step (max_clients : ℕ) : World → World → Type 0 where
  check_step :
      (r : Registry) (before after : List Phase) (session : ℕ)
      → Step max_clients
          (record { registry = r; listeners = before ++ waiting ∷ after })
          (record { registry = r; listeners = before ++ check max_clients r session ∷ after })
  adopt_step :
      (r : Registry) (before after : List Phase) (session : ℕ)
      → Step max_clients
          (record { registry = r; listeners = before ++ admitted session ∷ after })
          (record { registry = adopt r session; listeners = before ++ waiting ∷ after })
  reap_step :
      (r : Registry) (ps : List Phase)
      → Step max_clients
          (record { registry = r; listeners = ps })
          (record { registry = reap_finished r; listeners = ps })
  session_step :
      (r : Registry) (ps : List Phase) (session : ℕ)
      → Step max_clients
          (record { registry = r; listeners = ps })
          (record {
            registry = record r { entries = finish_session session r.entries };
            listeners = ps;
          })

pub data Steps (max_clients : ℕ) : World → World → Type 0 where
  stop : (w : World) → Steps max_clients w w
  step : {u v w : World} → Steps max_clients u v → Step max_clients v w → Steps max_clients u w
