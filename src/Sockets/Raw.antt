-- ===== src/Sockets/Raw.antt =====
-- terminal/src/net/IByteStream.h, SocketUtil.h and TcpConn.h: the interface of the byte streams, a
-- plain socket behind it, and the connection that speaks SEC1 straight on a stream. What the system
-- calls give is an argument.
use qt_s5p6818_face_tracking.Base.{
  ℕ, suc, ◌≡◌, ◌⊎◌, inl, inr, refl, sym, ◌∙◌, ap, true, Bool, List, [], ◌∷◌, ◌++◌, Bytes, Option,
  none, some, subst, append_assoc, append-nil,
}
use qt_s5p6818_face_tracking.Session.Dispatch.{Received}
use qt_s5p6818_face_tracking.Sockets.{Written, Finish, all_sent, send_all, send_all-prefix}

-- `IByteStream`, over the state `S` of a stream; a descriptor of -1 is `none`.
pub record IByteStream (S : Type 0) : Type 0 where
  pub handshake : S → S × Bool
  pub read : S → ℕ → S × Received
  pub write_all : S → Bytes → S × Finish
  pub fd : S → Option ℕ
  pub close : S → S

-- `IConn`, of the same shape.
pub record IConn (S : Type 0) : Type 0 where
  pub fd : S → Option ℕ
  pub handshake : S → S × Bool
  pub recv : S → ℕ → S × Received
  pub send : S → Bytes → S × Finish
  pub close : S → S

-- The methods of `TcpConn`.
abbrev pub tcp_conn : {S : Type 0} → IByteStream S → IConn S
tcp_conn stream = record {
  fd = stream.fd;
  handshake = stream.handshake;
  recv = stream.read;
  send = stream.write_all;
  close = stream.close;
}

data SocketOption : Type 0 where
  so_rcvtimeo so_sndtimeo so_keepalive tcp_keepidle tcp_keepintvl tcp_keepcnt : SocketOption

-- The calls of `setsockopt` on a descriptor, with their values, in seconds where they are times.
unfoldable set_timeouts : Option ℕ → ℕ → List (Option ℕ × SocketOption × ℕ)
set_timeouts fd seconds = (fd, so_rcvtimeo, seconds) ∷ (fd, so_sndtimeo, seconds) ∷ []

unfoldable set_keepalive : Option ℕ → ℕ → ℕ → ℕ → List (Option ℕ × SocketOption × ℕ)
set_keepalive fd idle_sec intvl_sec cnt =
    (fd, so_keepalive, 1)
    ∷ (fd, tcp_keepidle, idle_sec)
    ∷ (fd, tcp_keepintvl, intvl_sec)
    ∷ (fd, tcp_keepcnt, cnt)
    ∷ []

-- What the calls on a socket give: the k-th `recv`, and the writes of the k-th `sendAll`.
pub record Kernel : Type 0 where
  pub recv : ℕ → Option ℕ → ℕ → Received
  pub send : ℕ → Option ℕ → List Written

-- `closed` lists the descriptors given to `::close`, `written` the bytes on the wire.
pub record RawByteStream : Type 0 where
  pub fd : Option ℕ
  pub reads : ℕ
  pub writes : ℕ
  pub written : Bytes
  pub closed : List ℕ

-- The constructor.
abbrev pub create_raw : ℕ → RawByteStream
create_raw fd = record { fd = some fd; reads = 0; writes = 0; written = []; closed = [] }

unfoldable pub close_fd : RawByteStream → Option ℕ → RawByteStream
close_fd s none = s
close_fd s (some fd) = record s { fd = none; closed = s.closed ++ fd ∷ [] }

abbrev pub close_raw : RawByteStream → RawByteStream
close_raw s = close_fd s s.fd

-- The methods of `RawByteStream`.
unfoldable pub raw_stream : Kernel → IByteStream RawByteStream
raw_stream k = record {
  handshake = λ s. (s, true);
  read = λ s room. (record s { reads = suc s.reads }, k.recv s.reads s.fd room);
  write_all = λ s payload.
      let (done, finish) = send_all (k.send s.writes s.fd) [] payload in
      (record s { writes = suc s.writes; written = s.written ++ done }, finish);
  fd = λ s. s.fd;
  close = close_raw;
}

-- What a session calls on its connection.
pub data Use : Type 0 where
  handshakes hangs_up : Use
  receives : ℕ → Use
  sends : Bytes → Use

module _ {S : Type 0} (conn : IConn S) where
  abbrev pub used : S → Use → S
  used s handshakes = (conn.handshake s).0
  used s hangs_up = conn.close s
  used s (receives room) = (conn.recv s room).0
  used s (sends payload) = (conn.send s payload).0

  abbrev pub used_all : S → List Use → S
  used_all s [] = s
  used_all s (u ∷ us) = used_all (used s u) us

  -- The messages sent, each with what `send` says of it.
  abbrev pub outcomes : S → List Use → List (Bytes × Finish)
  outcomes s [] = []
  outcomes s (handshakes ∷ us) = outcomes (used s handshakes) us
  outcomes s (hangs_up ∷ us) = outcomes (used s hangs_up) us
  outcomes s (receives room ∷ us) = outcomes (used s (receives room)) us
  outcomes s (sends payload ∷ us) =
      (payload, (conn.send s payload).1) ∷ outcomes (used s (sends payload)) us

-- Bytes that are a front of each message, one after the other, and all of it where `send` says so.
abbrev pub AreFronts : List (Bytes × Finish) → Bytes → Type 0
AreFronts [] out = out ≡ []
AreFronts ((payload, finish) ∷ rs) out =
    (part : Bytes) × (rest : Bytes) × (out ≡ part ++ rest)
    × ((unsent : Bytes) × (part ++ unsent ≡ payload))
    × (finish ≡ all_sent → part ≡ payload)
    × AreFronts rs rest

-- The descriptor is open and has not been closed, or it is gone and has been closed once.
abbrev Owns : ℕ → RawByteStream → Type 0
Owns n s = ((s.fd ≡ some n) × (s.closed ≡ [])) ⊎ ((s.fd ≡ none) × (s.closed ≡ n ∷ []))

close_raw_lem :
    (n : ℕ) (s : RawByteStream)
    → Owns n s
    → ((close_raw s).fd ≡ none) × ((close_raw s).closed ≡ n ∷ [])
unfolding close_fd
close_raw_lem n s (inl (o, c)) = rw (o, c) (refl, refl)
close_raw_lem n s (inr (g, c)) = rw (g, c) (refl, refl)

close_fd-written : (s : RawByteStream) (fd : Option ℕ) → (close_fd s fd).written ≡ s.written
unfolding close_fd
close_fd-written s none = refl
close_fd-written s (some fd) = refl

module _ (k : Kernel) where
  used-Owns :
      (n : ℕ) (s : RawByteStream) (u : Use) → Owns n s → Owns n (used (tcp_conn (raw_stream k)) s u)
  unfolding raw_stream
  used-Owns n s handshakes h = h
  used-Owns n s hangs_up h = inr (close_raw_lem n s h)
  used-Owns n s (receives room) h = h
  used-Owns n s (sends payload) h = h

  used_all-Owns :
      (n : ℕ) (s : RawByteStream) (us : List Use)
      → Owns n s
      → Owns n (used_all (tcp_conn (raw_stream k)) s us)
  used_all-Owns n s [] h = h
  used_all-Owns n s (u ∷ us) h =
      used_all-Owns n (used (tcp_conn (raw_stream k)) s u) us (used-Owns n s u h)

  used_all-AreFronts :
      (s : RawByteStream) (us : List Use)
      → (out : Bytes) × ((used_all (tcp_conn (raw_stream k)) s us).written ≡ s.written ++ out)
        × AreFronts (outcomes (tcp_conn (raw_stream k)) s us) out
  unfolding raw_stream close_fd
  used_all-AreFronts s [] = ([], sym (append-nil s.written), refl)
  used_all-AreFronts s (handshakes ∷ us) = used_all-AreFronts s us
  used_all-AreFronts s (hangs_up ∷ us) =
      let (out, e, fronts) = used_all-AreFronts (close_raw s) us in
      (out, e ∙ ap (λ w. w ++ out) (close_fd-written s s.fd), fronts)
  used_all-AreFronts s (receives room ∷ us) =
      used_all-AreFronts (used (tcp_conn (raw_stream k)) s (receives room)) us
  used_all-AreFronts s (sends payload ∷ us) =
      let done = (send_all (k.send s.writes s.fd) [] payload).0 in
      let (front, whole) = send_all-prefix (k.send s.writes s.fd) payload in
      let (out, e, fronts) =
        used_all-AreFronts (used (tcp_conn (raw_stream k)) s (sends payload)) us in
      (done ++ out, e ∙ append_assoc s.written done out, (done, out, refl, front, whole, fronts))

  -- Whatever a session calls on a connection over a plain socket: the bytes on the wire are a
  -- front of each message sent, one after the other, and all of it where `send` returns true; and
  -- when the destructor has closed the connection, its descriptor has been closed exactly once,
  -- and no other.
  pub tcp_conn_lem :
      (n : ℕ) (us : List Use)
      → AreFronts
          (outcomes (tcp_conn (raw_stream k)) (create_raw n) us)
          (used_all (tcp_conn (raw_stream k)) (create_raw n) us).written
        × ((close_raw (used_all (tcp_conn (raw_stream k)) (create_raw n) us)).fd ≡ none)
        × ((close_raw (used_all (tcp_conn (raw_stream k)) (create_raw n) us)).closed ≡ n ∷ [])
  tcp_conn_lem n us =
      let (out, e, fronts) = used_all-AreFronts (create_raw n) us in
      let closed = close_raw_lem n _ (used_all-Owns n (create_raw n) us (inl (refl, refl))) in
      (
        subst (AreFronts (outcomes (tcp_conn (raw_stream k)) (create_raw n) us)) (sym e) fronts,
        closed.0,
        closed.1,
      )
