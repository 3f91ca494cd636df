-- ===== src/Server/Listener.antt =====
-- terminal/src/net/TcpServer.cpp: one listener on its thread. What the socket calls and the registry
-- give is an argument; the log is what happened to sockets. `Server` has the interleaving of several.
use qt_s5p6818_face_tracking.Base.{
  ℕ, Bool, true, false, List, [], ◌∷◌, ◌++◌, Option, none, some, leb, if◌then◌else◌,
}
use qt_s5p6818_face_tracking.Server.{client_cap}

-- Below the session: a raw socket or a TLS session, with or without WebSocket frames.
pub record Wrapping : Type 0 where
  pub encrypted : Bool
  pub websocket : Bool

-- `reaped` is a call of `reapFinished`.
pub data SocketEvent : Type 0 where
  made closed taken : ℕ → SocketEvent
  adopted : ℕ → Wrapping → SocketEvent
  reaped : SocketEvent

-- `max_clients` is the constructor's choice.
pub record TcpServer : Type 0 where
  pub max_clients : ℕ
  pub wrapping : Wrapping
  pub listen_fd : Option ℕ
  pub log : List SocketEvent

-- What `poll` gives: a connection comes with what `accept` gives, and `count` then.
pub data Polled : Type 0 where
  interrupted poll_failed timed_out : Polled
  incoming : Option ℕ → ℕ → Polled

pub record Pass : Type 0 where
  pub stop : Bool
  pub polled : Polled

-- The constructor.
unfoldable pub create_server : ℕ → Wrapping → TcpServer
unfolding client_cap
create_server max_clients wrapping = record {
  max_clients = client_cap max_clients;
  wrapping = wrapping;
  listen_fd = none;
  log = [];
}

unfoldable pub note : TcpServer → SocketEvent → TcpServer
note s e = record s { log = s.log ++ e ∷ [] }

-- `socket`, `bind` and `listen`.
unfoldable pub bind_and_listen : TcpServer → Option ℕ → Bool → Bool → TcpServer × Bool
unfolding note
bind_and_listen s none binds listens = (record s { listen_fd = none }, false)
bind_and_listen s (some fd) binds listens =
    let s1 = note (record s { listen_fd = some fd }) (made fd) in
    let lost = note (record s1 { listen_fd = none }) (closed fd) in
    if binds then (if listens then (s1, true) else (lost, false)) else (lost, false)

-- An accepted socket is closed at the cap; else a session gets it.
unfoldable pub accept_one : TcpServer → Option ℕ → ℕ → TcpServer
unfolding note
accept_one s none count = s
accept_one s (some fd) count =
    let s1 = note s (taken fd) in
    if leb s.max_clients count then note s1 (closed fd) else note s1 (adopted fd s.wrapping)

-- The body of the loop behind `poll`; `next` is the rest of the loop.
unfoldable pub after_poll : (TcpServer → TcpServer × Bool) → TcpServer → Polled → TcpServer × Bool
unfolding accept_one note
after_poll next s interrupted = next s
after_poll next s poll_failed = (s, true)
after_poll next s timed_out = next (note s reaped)
after_poll next s (incoming fd count) = next (note (accept_one s fd count) reaped)

-- The loop of `run`, and whether it has come to its end.
unfoldable pub listen_loop : TcpServer → List Pass → TcpServer × Bool
unfolding after_poll
listen_loop s [] = (s, false)
listen_loop s (p ∷ ps) =
    let rest = after_poll (λ t. listen_loop t ps) s p.polled in if p.stop then (s, true) else rest

unfoldable pub close_listener : TcpServer → TcpServer
unfolding note
close_listener s = elim s.listen_fd [
  | none ↦ s
  | some fd ↦ record (note s (closed fd)) { listen_fd = none }
]

-- `run`, and whether it has returned.
unfoldable pub run_listener : TcpServer → List Pass → TcpServer × Bool
unfolding listen_loop close_listener
run_listener s ps =
    let (s', ended) = listen_loop s ps in
    elim s.listen_fd [
      | none ↦ (s, true)
      | some fd ↦ if ended then (close_listener s', true) else (s', false)
    ]
