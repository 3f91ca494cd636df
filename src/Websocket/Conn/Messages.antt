-- ===== src/Websocket/Conn/Messages.antt =====
-- terminal/src/net/WebSocketConn.cpp under terminal/src/net/ClientSession.cpp: SEC1 messages that
-- come in WebSocket frames.
use mathlib.Core.List.{flatten}
use qt_s5p6818_face_tracking.Base.{
  ℕ, suc, ◌+◌, ◌≤◌, ◌<◌, ◌^◌, ◌≡◌, refl, ap, ◌∙◌, Bool, false, List, [], ◌∷◌, ◌++◌, Bytes, length,
  length-append, All, arith,
}
use qt_s5p6818_face_tracking.Protocol.{MsgType, build_message}
use qt_s5p6818_face_tracking.Protocol.RoundTrip.{length-build_message}
use qt_s5p6818_face_tracking.Stream.{Refusal, waiting, resume_all}
use qt_s5p6818_face_tracking.Stream.Messages.{wire as messages, deliver, resume_all-wire}
use qt_s5p6818_face_tracking.Websocket.{decode_frame}
use qt_s5p6818_face_tracking.Websocket.Conn.{Conn}
use qt_s5p6818_face_tracking.Websocket.Conn.Calls.{calls, calls-GivesAll, idle}
use qt_s5p6818_face_tracking.Websocket.Conn.Cuts.{after, after_open}
use qt_s5p6818_face_tracking.Websocket.Conn.Delivery.{
  Sent, IsSound, wire, payloads, pongs, taken, drain_frames-wire,
}

-- An open connection that has read nothing yet, or has used all that it has read.
pub record IsFresh (c : Conn) : Type 0 where
  pub open_ : c.closed ≡ false
  pub no_rx : c.rx ≡ []
  pub no_app : c.app ≡ []

after-wire :
    (c : Conn) (fs : List Sent)
    → IsFresh c
    → All IsSound fs
    → after (idle c) (wire fs) ≡ taken (idle c) (payloads fs) (pongs fs) []
after-wire c fs v sound =
    after_open (idle c) (wire fs) v.open_
    ∙ rw v.no_rx
        (drain_frames-wire (suc (length (wire fs))) (idle c) fs v.open_ sound (omega arith))

-- The pieces of a sequence of messages, to a session whose buffer is empty.
resume_all-pieces {ℓ} :
    {S : Type ℓ} (limit : ℕ) (refuse : S → Refusal → S) (handle : S → ℕ → Bytes → S × Bool) (s : S)
    (ms : List (MsgType × Bytes)) (ps : List Bytes)
    → limit < 2 ^ 32
    → All (λ m. length m.1 ≤ limit) ms
    → flatten ps ≡ messages ms
    → resume_all limit refuse handle (waiting s []) ps ≡ deliver limit refuse handle s ms
unfolding resume_all flatten
resume_all-pieces limit refuse handle s [] [] k fit e = refl
resume_all-pieces limit refuse handle s ((t, payload) ∷ ms) [] k fit e = absurd (
    omega (
      arith,
      ap length e,
      length-append (build_message t payload 0) (messages ms),
      length-build_message t payload 0,
    ))
resume_all-pieces limit refuse handle s ms (p ∷ ps) k fit e =
    resume_all-wire limit refuse handle s ms p ps k fit e

-- Sound data, ping and pong frames, masked by RFC 6455, whose payloads are, one after the other,
-- a sequence of messages, cut by the network in any way: calls of `recv` on a fresh connection,
-- as many as there are reads and payload bytes, give a session with an empty buffer what makes
-- its handler get exactly those messages, in order, up to the first that it answers with false;
-- each ping has been answered by a pong with its payload, and the connection is open with nothing
-- left over. No message is longer than the session's limit, which is below 2 ^ 32, and `recv` has
-- room for a byte.
pub calls-deliver {ℓ} :
    {S : Type ℓ} (limit : ℕ) (refuse : S → Refusal → S) (handle : S → ℕ → Bytes → S × Bool) (s : S)
    (ms : List (MsgType × Bytes)) (cap_size n : ℕ) (c : Conn) (fs : List Sent) (qs : List Bytes)
    → limit < 2 ^ 32
    → All (λ m. length m.1 ≤ limit) ms
    → 0 < cap_size
    → IsFresh c
    → All IsSound fs
    → payloads fs ≡ messages ms
    → flatten qs ≡ wire fs
    → length qs + length (payloads fs) ≤ n
    → let (ps, d) = calls cap_size n c qs in
      (resume_all limit refuse handle (waiting s []) ps ≡ deliver limit refuse handle s ms)
      × (d.stream.sent ≡ c.stream.sent ++ pongs fs)
      × IsFresh d
calls-deliver limit refuse handle s ms cap_size n c fs qs k fit room v sound carried cut h =
    let all_read = ap (after (idle c)) cut ∙ after-wire c fs v sound in
    let (given, left) =
      calls-GivesAll cap_size n c qs room (v.open_, unfold decode_frame in rw v.no_rx)
        (ap (λ d. d.closed) all_read ∙ v.open_)
        (omega (arith, ap length v.no_app, ap length (ap (λ d. d.app) all_read))) in
    let end : (calls cap_size n c qs).1 ≡ idle (taken (idle c) (payloads fs) (pongs fs) []) =
      left ∙ ap idle all_read in
    (
      resume_all-pieces limit refuse handle s ms (calls cap_size n c qs).0 k fit (
          given
          ∙ ap (λ a. a ++ (after (idle c) (flatten qs)).app) v.no_app
          ∙ ap (λ d. d.app) all_read
          ∙ carried),
      ap (λ d. d.stream.sent) end,
      record {
        open_ = ap (λ d. d.closed) end ∙ v.open_;
        no_rx = ap (λ d. d.rx) end;
        no_app = ap (λ d. d.app) end;
      },
    )
