-- ===== src/Sockets/Tls.antt =====
-- terminal/src/net/TlsConn.cpp: the life of the TLS context and of a TLS session, as the calls of
-- OpenSSL and of the system that are made. What each of them gives is an argument.
use qt_s5p6818_face_tracking.Base.{
  ◌≡◌, refl, Bool, true, false, not, ◌&&◌, List, [], ◌∷◌, ◌++◌, Option, none, some, if◌then◌else◌,
}
use qt_s5p6818_face_tracking.Base.Replay.{replay}

pub data TlsCall : Type 0 where
  ctx_new ssl_new : Bool → TlsCall
  ctx_free set_min_proto_version set_mode use_certificate use_key check_key : TlsCall
  set_fd accept shutdown ssl_free close_fd : TlsCall

-- What the calls of `TlsContext::create` give.
pub record CertFiles : Type 0 where
  pub makes : Bool
  pub has_chain : Bool
  pub has_key : Bool
  pub matches : Bool

-- The checks of the certificate and the key, each of which frees the context when it fails.
unfoldable pub check_files : CertFiles → List TlsCall × Bool
check_files f =
    if not f.has_chain
    then (use_certificate ∷ ctx_free ∷ [], false)
    else if not f.has_key
    then (use_certificate ∷ use_key ∷ ctx_free ∷ [], false)
    else if not f.matches
    then (use_certificate ∷ use_key ∷ check_key ∷ ctx_free ∷ [], false)
    else (use_certificate ∷ use_key ∷ check_key ∷ [], true)

unfoldable pub create_context : CertFiles → List TlsCall × Bool
unfolding check_files
create_context f =
    let (calls, done) = check_files f in
    if not f.makes
    then (ctx_new false ∷ [], false)
    else (ctx_new true ∷ set_min_proto_version ∷ set_mode ∷ calls, done)

-- The destructor of the context.
unfoldable pub free_context : Bool → List TlsCall
free_context ctx = if ctx then ctx_free ∷ [] else []

-- `ssl` is whether the pointer is not null.
pub record TlsByteStream : Type 0 where
  pub ssl : Bool
  pub fd : Bool
  pub calls : List TlsCall

-- The descriptor is one that `accept` gave.
unfoldable pub create_stream : Bool → TlsByteStream
create_stream makes = record {
  ssl = makes;
  fd = true;
  calls = ssl_new makes ∷ (if makes then set_fd ∷ [] else []);
}

-- `accepts` is whether SSL_accept gives 1.
unfoldable pub handshake : TlsByteStream → Bool → TlsByteStream × Bool
handshake s accepts =
    if not s.ssl then (s, false) else (record s { calls = s.calls ++ accept ∷ [] }, accepts)

unfoldable pub close_stream : TlsByteStream → TlsByteStream
close_stream s =
    let ends = if s.ssl then shutdown ∷ ssl_free ∷ [] else [] in
    let closes = if s.fd then close_fd ∷ [] else [] in
    record { ssl = false; fd = false; calls = s.calls ++ (ends ++ closes) }

-- The context, the session, and the descriptor that the session reads.
pub record Held : Type 0 where
  pub ctx : Bool
  pub ssl : Bool
  pub fd : Bool

-- `none` is a misuse: a call on a context or a session that there is not, a session freed after its
-- descriptor is closed, a context freed before its session.
abbrev pub effect : Held → TlsCall → Option Held
effect h (ctx_new done) = if h.ctx then none else some (record h { ctx = done })
effect h ctx_free = if h.ctx && not h.ssl then some (record h { ctx = false }) else none
effect h (ssl_new done) = if h.ctx && not h.ssl then some (record h { ssl = done }) else none
effect h accept = if h.ssl && h.fd then some h else none
effect h set_fd = if h.ssl && h.fd then some h else none
effect h shutdown = if h.ssl && h.fd then some h else none
effect h ssl_free = if h.ssl && h.fd then some (record h { ssl = false }) else none
effect h close_fd = if h.fd then some (record h { fd = false }) else none
effect h c = if h.ctx then some h else none

abbrev pub accepted : Held
accepted = record { ctx = false; ssl = false; fd = true }

abbrev pub nothing_held : Held
nothing_held = record { ctx = false; ssl = false; fd = false }

-- Without a context nothing is held, and with one just that.
create_context_balanced :
    (makes has_chain has_key matches : Bool)
    → let r =
        create_context
          (record { makes = makes; has_chain = has_chain; has_key = has_key; matches = matches }) in
      replay effect nothing_held r.0 ≡ some (record nothing_held { ctx = r.1 })
unfolding create_context
create_context_balanced false c k m = refl
create_context_balanced true false k m = refl
create_context_balanced true true false m = refl
create_context_balanced true true true false = refl
create_context_balanced true true true true = refl

-- A session on a context, whatever the handshake gives, leaves nothing behind when it has been
-- closed, once by hand and once by its destructor, and the context has been freed.
close_stream_balanced :
    (makes accepts : Bool)
    → replay effect
        (record accepted { ctx = true })
        ((close_stream (close_stream (handshake (create_stream makes) accepts).0)).calls
          ++ free_context true)
      ≡ some nothing_held
unfolding create_stream handshake close_stream free_context
close_stream_balanced true accepts = refl
close_stream_balanced false accepts = refl
