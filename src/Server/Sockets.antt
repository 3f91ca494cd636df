-- ===== src/Server/Sockets.antt =====
-- terminal/src/net/TcpServer.cpp: every socket that a listener makes or accepts is closed or given
-- to a session.
use qt_s5p6818_face_tracking.Base.{
  ℕ, ◌≡◌, refl, sym, ◌∙◌, Bool, true, false, List, [], ◌∷◌, ◌++◌, Option, none, some, leb, ◌==◌,
  ==_refl, if◌then◌else◌, if_lem,
}
use qt_s5p6818_face_tracking.Base.Replay.{replay, replay-snoc}
use qt_s5p6818_face_tracking.Server.Listener.{
  TcpServer, SocketEvent, Wrapping, made, closed, taken, adopted, reaped, Pass, Polled, interrupted,
  poll_failed, timed_out, incoming, note, create_server, after_poll, bind_and_listen, accept_one,
  listen_loop, close_listener, run_listener,
}

-- The listening socket, and the accepted one that is nobody's yet.
pub record Held : Type 0 where
  pub listens : Option ℕ
  pub pending : Option ℕ

abbrev pub nothing_held : Held
nothing_held = record { listens = none; pending = none }

-- The accepted socket leaves the listener's hands.
abbrev leave : Held → ℕ → Option Held
leave h fd = elim h.pending [
  | none ↦ none
  | some p ↦ if p == fd then some (record h { pending = none }) else none
]

abbrev shut : Held → ℕ → Option Held
shut h fd = elim h.listens [
  | none ↦ none
  | some l ↦ if l == fd then some (record h { listens = none }) else none
]

-- `none` is a misuse: a second listening socket, a connection taken while another is pending or
-- nothing listens, a socket given away or closed that is not held.
abbrev pub effect : Held → SocketEvent → Option Held
effect h (made fd) = elim h.listens [ none ↦ some (record h { listens = some fd }) | some l ↦ none ]
effect h (taken fd) = elim h.listens [
  | none ↦ none
  | some l ↦ elim h.pending [ none ↦ some (record h { pending = some fd }) | some p ↦ none ]
]
effect h (closed fd) = elim h.pending [ none ↦ shut h fd | some p ↦ leave h fd ]
effect h (adopted fd w) = leave h fd
effect h reaped = some h

-- After this log, this is held.
abbrev pub Holds : TcpServer → Option ℕ → Option ℕ → Type 0
Holds s l p = replay effect nothing_held s.log ≡ some (record { listens = l; pending = p })

note_lem :
    (s : TcpServer) (e : SocketEvent) (h h' : Held)
    → replay effect nothing_held s.log ≡ some h
    → effect h e ≡ some h'
    → replay effect nothing_held (note s e).log ≡ some h'
unfolding note
note_lem s e h h' held step = replay-snoc effect nothing_held s.log e ∙ rw held step

-- While it listens on `l`, no accepted socket is left over.
abbrev Listens : ℕ → TcpServer → Type 0
Listens l s = (s.listen_fd ≡ some l) × Holds s (some l) none

reap-Listens : (l : ℕ) (s : TcpServer) → Listens l s → Listens l (note s reaped)
unfolding note
reap-Listens l s (fd, h) = (fd, note_lem s reaped _ _ h refl)

accept_one-Listens :
    (l : ℕ) (s : TcpServer) (fd : Option ℕ) (count : ℕ)
    → Listens l s
    → Listens l (accept_one s fd count)
unfolding accept_one note
accept_one-Listens l s none count h = h
accept_one-Listens l s (some fd) count (e, h) =
    let s1 = note s (taken fd) in
    let idle : Held = record { listens = some l; pending = none } in
    let busy : Held = record { listens = some l; pending = some fd } in
    let took = note_lem s (taken fd) idle busy h refl in
    if_lem (Listens l) (leb s.max_clients count) _ _
      (λ full. (e, note_lem s1 (closed fd) busy idle took (rw (==_refl fd) refl)))
      (λ room. (e, note_lem s1 (adopted fd s.wrapping) busy idle took (rw (==_refl fd) refl)))

after_poll-Listens :
    (l : ℕ) (next : TcpServer → TcpServer × Bool) (s : TcpServer) (q : Polled)
    → ((t : TcpServer) → Listens l t → Listens l (next t).0)
    → Listens l s
    → Listens l (after_poll next s q).0
unfolding after_poll
after_poll-Listens l next s interrupted go h = go s h
after_poll-Listens l next s poll_failed go h = h
after_poll-Listens l next s timed_out go h = go (note s reaped) (reap-Listens l s h)
after_poll-Listens l next s (incoming fd count) go h =
    go (note (accept_one s fd count) reaped)
      (reap-Listens l (accept_one s fd count) (accept_one-Listens l s fd count h))

listen_loop-Listens :
    (l : ℕ) (s : TcpServer) (ps : List Pass) → Listens l s → Listens l (listen_loop s ps).0
unfolding listen_loop
listen_loop-Listens l s [] h = h
listen_loop-Listens l s (p ∷ ps) h =
    if_lem {A = TcpServer × Bool} (λ r. Listens l r.0) p.stop (s, true) _ (λ e. h)
      (λ e.
        after_poll-Listens l (λ t. listen_loop t ps) s p.polled
          (λ t k. listen_loop-Listens l t ps k) h)

-- What `run` leaves when it returns.
abbrev Finished : TcpServer × Bool → Type 0
Finished r = (r.1 ≡ true) × ((r.0.listen_fd ≡ none) × Holds r.0 none none)

close_listener-Holds : (l : ℕ) (s : TcpServer) → Listens l s → Finished (close_listener s, true)
unfolding close_listener
close_listener-Holds l s (fd, h) =
    rw (fd, close_listener)
      (
        refl,
        (
          refl,
          note_lem s (closed l) (record { listens = some l; pending = none }) nothing_held h
              (rw (==_refl l) refl),
        ),
      )

after_poll_ends :
    (next : TcpServer → TcpServer × Bool) (s : TcpServer) (q : Polled)
    → ((t : TcpServer) → (next t).1 ≡ true)
    → (after_poll next s q).1 ≡ true
unfolding after_poll
after_poll_ends next s interrupted go = go s
after_poll_ends next s poll_failed go = refl
after_poll_ends next s timed_out go = go (note s reaped)
after_poll_ends next s (incoming fd count) go = go (note (accept_one s fd count) reaped)

listen_loop_ends :
    (ps : List Pass) (p : Pass) (qs : List Pass) (s : TcpServer)
    → p.stop ≡ true
    → (listen_loop s (ps ++ p ∷ qs)).1 ≡ true
unfolding listen_loop
listen_loop_ends [] p qs s e =
    if_lem {A = TcpServer × Bool} (λ r. r.1 ≡ true) p.stop (s, true) _ (λ f. refl)
      (λ f. absurd (cc (sym e ∙ f)))
listen_loop_ends (o ∷ ps) p qs s e =
    if_lem {A = TcpServer × Bool} (λ r. r.1 ≡ true) o.stop (s, true) _ (λ f. refl)
      (λ f.
        after_poll_ends (λ t. listen_loop t (ps ++ p ∷ qs)) s o.polled
          (λ t. listen_loop_ends ps p qs t e))

-- Whether binding and listening work or not, and whatever poll, accept and the client count give:
-- a listener that is told to stop returns, and by then each socket that it made or accepted has
-- been closed or given to a session once, and it has no listening socket.
pub run_listener_balanced :
    (max_clients : ℕ) (wrapping : Wrapping) (socket : Option ℕ) (binds accepts : Bool)
    (ps : List Pass) (p : Pass) (qs : List Pass)
    → p.stop ≡ true
    → let s = (bind_and_listen (create_server max_clients wrapping) socket binds accepts).0 in
      let r = run_listener s (ps ++ p ∷ qs) in
      (r.1 ≡ true) × ((r.0.listen_fd ≡ none) × Holds r.0 none none)
unfolding run_listener bind_and_listen create_server note
run_listener_balanced cap w none binds accepts ps p qs e = (refl, (refl, refl))
run_listener_balanced cap w (some fd) false accepts ps p qs e = (refl, (refl, rw (==_refl fd) refl))
run_listener_balanced cap w (some fd) true false ps p qs e = (refl, (refl, rw (==_refl fd) refl))
run_listener_balanced cap w (some fd) true true ps p qs e =
    let s = (bind_and_listen (create_server cap w) (some fd) true true).0 in
    let r = listen_loop s (ps ++ p ∷ qs) in
    let ended = listen_loop_ends ps p qs s e in
    if_lem Finished r.1 (close_listener r.0, true) (r.0, false)
      (λ f. close_listener-Holds fd r.0 (listen_loop-Listens fd s (ps ++ p ∷ qs) (refl, refl)))
      (λ f. absurd (cc (sym ended ∙ f)))
