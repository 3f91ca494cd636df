-- ===== src/Stream/Messages.antt =====
-- The framing loop over the bytes that `buildMessage` of terminal/src/net/Protocol.h writes.
use mathlib.Core.List.{flatten}
use qt_s5p6818_face_tracking.Base.{
  ℕ, zero, suc, ◌≤◌, ◌<◌, ◌^◌, ◌≡◌, refl, ap, Bool-cases, inl, inr, ◌∙◌, Bool, List, [], ◌∷◌, ◌++◌,
  Bytes, length, length-append, take-append, drop-append, if◌then◌else◌, arith, All,
}
use qt_s5p6818_face_tracking.Protocol.{MsgType, type_code, build_message}
use qt_s5p6818_face_tracking.Protocol.RoundTrip.{decode_header-build_message, length-build_message}
use qt_s5p6818_face_tracking.Stream.{
  Refusal, message, scan_header, scan, Drained, ended, waiting, drain, drain_all, resume,
  resume_all,
}
use qt_s5p6818_face_tracking.Stream.Chunks.{
  drain_go, drain_stop, drain_need_more, resume_all-flatten,
}

-- The scan finds a built message at the front of the buffer, whole and with nothing else.
pub scan-build_message :
    (limit : ℕ) (t : MsgType) (payload rest : Bytes)
    → length payload ≤ limit
    → limit < 2 ^ 32
    → scan limit (build_message t payload 0 ++ rest) ≡ message (type_code t) payload rest
unfolding scan scan_header
scan-build_message limit t payload rest h k =
    let (decoded, dropped) =
      decode_header-build_message t payload 0 rest (omega arith) (omega arith) in
    ground (
      arith,
      decoded,
      dropped,
      length-append (build_message t payload 0) rest,
      length-build_message t payload 0,
      take-append payload rest,
      drop-append payload rest,
    )

-- The bytes of a sequence of messages.
abbrev pub wire : List (MsgType × Bytes) → Bytes
wire [] = []
wire ((t, payload) ∷ ms) = build_message t payload 0 ++ wire ms

module _ {ℓ} {S : Type ℓ} (limit : ℕ) (refuse : S → Refusal → S)
    (handle : S → ℕ → Bytes → S × Bool) where
  -- The handler on one message after another, until it gives up.
  abbrev pub deliver : S → List (MsgType × Bytes) → Drained S
  deliver s [] = waiting s []
  deliver s ((t, payload) ∷ ms) =
      if (handle s (type_code t) payload).1
      then deliver (handle s (type_code t) payload).0 ms
      else ended (handle s (type_code t) payload).0

  drain-wire :
      (s : S) (ms : List (MsgType × Bytes)) (n : ℕ)
      → limit < 2 ^ 32
      → All (λ m. length m.1 ≤ limit) ms
      → length (wire ms) < n
      → drain limit refuse handle n s (wire ms) ≡ deliver s ms
  drain-wire s [] zero k fit h = absurd (omega arith)
  drain-wire s [] (suc n) k fit h = drain_need_more limit refuse handle n s [] (unfold scan in refl)
  drain-wire s ((t, payload) ∷ ms) zero k fit h = absurd (omega arith)
  drain-wire s ((t, payload) ∷ ms) (suc n) k fit h =
      let e = scan-build_message limit t payload (wire ms) fit.0 k in
      elim (Bool-cases (handle s (type_code t) payload).1) [
        | inl go ↦
            drain_go limit refuse handle n s _ e go
            ∙ rw go (
                drain-wire (handle s (type_code t) payload).0 ms n k fit.1 (
                  omega (
                    arith,
                    length-append (build_message t payload 0) (wire ms),
                    length-build_message t payload 0,
                  )))
        | inr stop ↦ drain_stop limit refuse handle n s _ e stop ∙ rw stop
      ]

  -- However the bytes of a sequence of messages (none longer than the limit, which is below 2 ^
  -- 32) are cut into reads, the handler gets exactly those messages, in order, up to the first
  -- that it answers with false.
  pub resume_all-wire :
      (s : S) (ms : List (MsgType × Bytes)) (q : Bytes) (qs : List Bytes)
      → limit < 2 ^ 32
      → All (λ m. length m.1 ≤ limit) ms
      → q ++ flatten qs ≡ wire ms
      → resume_all limit refuse handle (waiting s []) (q ∷ qs) ≡ deliver s ms
  unfolding resume drain_all
  resume_all-wire s ms q qs k fit e =
      resume_all-flatten limit refuse handle (waiting s []) q qs
      ∙ ap (drain_all limit refuse handle s) e
      ∙ drain-wire s ms (suc (length (wire ms))) k fit (omega arith)
