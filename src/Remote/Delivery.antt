-- ===== src/Remote/Delivery.antt =====
-- Commands from pc-client/src/net/TcpClient.cpp to the queue of terminal/src/core/CommandQueue.h.
use mathlib.Core.List.{flatten}
use qt_s5p6818_face_tracking.Base.{
  ℕ, ◌≡◌, ◌≤◌, refl, sym, ap, ◌∙◌, true, false, not, List, [], ◌∷◌, ◌++◌, Bytes, Option, length,
  All, arith, map, append_assoc, append-nil, length-append, if_lem, suc, drop, drop-append,
}
use qt_s5p6818_face_tracking.Base.Text.{codes}
use qt_s5p6818_face_tracking.Client.{
  Client, Qt, SocketCall, call, write, send_message, send_servo_step, send_servo_abs, send_mode,
}
use qt_s5p6818_face_tracking.Core.Commands.{push}
use qt_s5p6818_face_tracking.Files.{FileSystem, FileManager}
use qt_s5p6818_face_tracking.Protocol.{
  MsgType, servo_cmd, mode_cmd, type_code, build_message, msg_type,
}
use qt_s5p6818_face_tracking.Remote.{
  Intent, step_by, aim_at, track, command_of, request, requests, IsCompact, IsSendable,
}
use qt_s5p6818_face_tracking.Remote.Wording.{
  servo_body, mode_body, servo_command-step, servo_command-abs, mode_command-track,
}
use qt_s5p6818_face_tracking.Session.{Session}
use qt_s5p6818_face_tracking.Session.Dispatch.{
  Moment, max_message, handle_message, on_message, refuse,
}
use qt_s5p6818_face_tracking.Stream.{waiting, resume_all}
use qt_s5p6818_face_tracking.Stream.Messages.{wire, deliver, resume_all-wire}

module _ {R : Type 0} (print : R → Bytes) where
  -- The message for an intent.
  abbrev pub message_of : Intent R → MsgType × Bytes
  message_of (step_by pan tilt) = (servo_cmd, servo_body (codes "step") (print pan) (print tilt))
  message_of (aim_at pan tilt) = (servo_cmd, servo_body (codes "abs") (print pan) (print tilt))
  message_of (track on) = (mode_cmd, mode_body on)

  abbrev pub written : List (Intent R) → List SocketCall
  written [] = []
  written (i ∷ is) = write (build_message (message_of i).0 (message_of i).1 0) ∷ written is

  -- The bytes that the calls on a socket write.
  abbrev pub stream_of : List SocketCall → Bytes
  stream_of [] = []
  stream_of (write bs ∷ cs) = bs ++ stream_of cs
  stream_of (c ∷ cs) = stream_of cs

  stream_of-written : (is : List (Intent R)) → stream_of (written is) ≡ wire (map message_of is)
  stream_of-written [] = refl
  stream_of-written (i ∷ is) =
      ap (λ bs. build_message (message_of i).0 (message_of i).1 0 ++ bs) (stream_of-written is)

  module _ {Image Cert : Type 0} (qt : Qt R Image Cert) (compact : IsCompact print qt.to_json) where
    -- What is written for it.
    sent : Client Image Cert → Intent R → Client Image Cert
    sent c i = call c (write (build_message (message_of i).0 (message_of i).1 0))

    pub send_message_lem :
        (c : Client Image Cert) (t : MsgType) (payload body : Bytes)
        → c.is_connected ≡ true
        → payload ≡ body
        → send_message c t payload ≡ call c (write (build_message t body 0))
    unfolding send_message
    send_message_lem c t payload body on e =
        if_lem (λ r. r ≡ call c (write (build_message t body 0))) (not c.is_connected) c
          (call c (write (build_message t payload 0))) (λ off. absurd (ground arith))
          (λ up. ap (λ b. call c (write (build_message t b 0))) e)

    closing :
        (pan tilt : R)
        → (print pan ++ (codes ",\"tilt\":" ++ print tilt)) ++ codes "}"
          ≡ print pan ++ (codes ",\"tilt\":" ++ (print tilt ++ codes "}"))
    closing pan tilt = append_assoc (print pan) (codes ",\"tilt\":" ++ print tilt) (codes "}")

    request_lem :
        (c : Client Image Cert) (i : Intent R) → c.is_connected ≡ true → request qt c i ≡ sent c i
    unfolding send_servo_step send_servo_abs send_mode sent
    request_lem c (step_by pan tilt) on =
        send_message_lem c servo_cmd _ _ on
          (compact _ refl ∙ ap (λ b. codes "{\"mode\":\"step\",\"pan\":" ++ b) (closing pan tilt))
    request_lem c (aim_at pan tilt) on =
        send_message_lem c servo_cmd _ _ on
          (compact _ refl ∙ ap (λ b. codes "{\"mode\":\"abs\",\"pan\":" ++ b) (closing pan tilt))
    request_lem c (track true) on = send_message_lem c mode_cmd _ _ on (compact _ refl)
    request_lem c (track false) on = send_message_lem c mode_cmd _ _ on (compact _ refl)

    -- A connected client writes one message for each intent, in order.
    pub requests-calls :
        (c : Client Image Cert) (is : List (Intent R))
        → c.is_connected ≡ true
        → (requests qt c is).calls ≡ c.calls ++ written is
    unfolding sent
    requests-calls c [] on = sym (append-nil c.calls)
    requests-calls c (i ∷ is) on =
        ap (λ d. (requests qt d is).calls) (request_lem c i on)
        ∙ requests-calls (sent c i) is on
        ∙ append_assoc c.calls _ (written is)

  module _ (strtod : Bytes → Option R) (zero : R) where
    short-message_of :
        (i : Intent R) → IsSendable print strtod i → length (message_of i).1 ≤ max_message
    short-message_of (step_by pan tilt) h = omega (
      arith,
      h.0.short,
      h.1.short,
      length-append (print pan) (codes ",\"tilt\":" ++ (print tilt ++ codes "}")),
      length-append (print tilt) (codes "}"),
    )
    short-message_of (aim_at pan tilt) h = omega (
      arith,
      h.0.short,
      h.1.short,
      length-append (print pan) (codes ",\"tilt\":" ++ (print tilt ++ codes "}")),
      length-append (print tilt) (codes "}"),
    )
    short-message_of (track true) h = omega arith
    short-message_of (track false) h = omega arith

    module _ {D Image : Type 0} (fs : FileSystem D Image) (m : FileManager)
        (moments : ℕ → Moment Image) where
      -- The session after it has taken a command.
      abbrev taken : Session R D → Intent R → Session R D
      taken s i = record s { queue = push s.queue (command_of zero i); handled = suc s.handled }

      pub authed-on_message :
          (s : Session R D) (type : ℕ) (payload : Bytes)
          → s.authed ≡ true
          → on_message fs m strtod zero moments s type payload
            ≡ (handle_message fs m strtod zero moments s type payload, true)
      unfolding on_message
      authed-on_message s type payload a =
          if_lem (λ r. r ≡ (handle_message fs m strtod zero moments s type payload, true)) s.authed
            (handle_message fs m strtod zero moments s type payload, true) _ (λ e. refl)
            (λ e. absurd (cc (sym a ∙ e)))

      on_message-taken :
          (s : Session R D) (i : Intent R)
          → s.authed ≡ true
          → IsSendable print strtod i
          → on_message fs m strtod zero moments s (type_code (message_of i).0) (message_of i).1
            ≡ (taken s i, true)
      unfolding handle_message msg_type type_code
      on_message-taken s (step_by pan tilt) a h =
          authed-on_message s (type_code servo_cmd) (message_of (step_by pan tilt)).1 a
          ∙ ap (λ c. (record s { queue = push s.queue c; handled = suc s.handled }, true))
              (servo_command-step print strtod zero pan tilt h.0 h.1)
      on_message-taken s (aim_at pan tilt) a h =
          authed-on_message s (type_code servo_cmd) (message_of (aim_at pan tilt)).1 a
          ∙ ap (λ c. (record s { queue = push s.queue c; handled = suc s.handled }, true))
              (servo_command-abs print strtod zero pan tilt h.0 h.1)
      on_message-taken s (track on) a h =
          authed-on_message s (type_code mode_cmd) (message_of (track on)).1 a
          ∙ ap (λ c. (record s { queue = push s.queue c; handled = suc s.handled }, true))
              (mode_command-track zero on)

      all-taken : Session R D → List (Intent R) → Session R D
      all-taken s [] = s
      all-taken s (i ∷ is) = all-taken (taken s i) is

      deliver-taken :
          (s : Session R D) (is : List (Intent R))
          → s.authed ≡ true
          → All (IsSendable print strtod) is
          → deliver max_message refuse (on_message fs m strtod zero moments) s (map message_of is)
            ≡ waiting (all-taken s is) []
      unfolding all-taken
      deliver-taken s [] a h = refl
      deliver-taken s (i ∷ is) a h =
          rw (on_message-taken s i a h.0) (deliver-taken (taken s i) is a h.1)

      short-messages :
          (is : List (Intent R))
          → All (IsSendable print strtod) is
          → All (λ t. length t.1 ≤ max_message) (map message_of is)
      short-messages [] h = tt
      short-messages (i ∷ is) h = (short-message_of i h.0, short-messages is h.1)

      -- What has not changed but the queue.
      abbrev pub IsQueued : Session R D → List (Intent R) → Session R D → Type 0
      IsQueued s is s' =
          (s'.queue ≡ s.queue ++ map (command_of zero) is)
          × ((s'.link ≡ s.link) × ((s'.disk ≡ s.disk) × (s'.authed ≡ s.authed)))

      all-taken-IsQueued : (s : Session R D) (is : List (Intent R)) → IsQueued s is (all-taken s is)
      unfolding all-taken push
      all-taken-IsQueued s [] = (sym (append-nil s.queue), (refl, (refl, refl)))
      all-taken-IsQueued s (i ∷ is) =
          let (q, rest) = all-taken-IsQueued (taken s i) is in
          (q ∙ append_assoc s.queue _ (map (command_of zero) is), rest)

      -- Whatever servo steps, absolute angles and modes a connected client is asked to send, and
      -- however their bytes are cut into reads, an authorised session that starts with an empty
      -- buffer puts exactly those commands into the queue, in order, sends nothing, leaves the
      -- disk alone and waits for more; Qt writes compact JSON, and strtod reads each printed
      -- number back.
      pub requests-delivered :
          {Image' Cert : Type 0} (qt : Qt R Image' Cert) (c : Client Image' Cert) (s : Session R D)
          (is : List (Intent R)) (q : Bytes) (qs : List Bytes)
          → IsCompact print qt.to_json
          → c.is_connected ≡ true
          → s.authed ≡ true
          → All (IsSendable print strtod) is
          → q ++ flatten qs ≡ stream_of (drop (length c.calls) (requests qt c is).calls)
          → (s' : Session R D) × ((resume_all max_message refuse
                  (on_message fs m strtod zero moments)
                  (waiting s [])
                  (q ∷ qs)
                ≡ waiting s' [])
              × IsQueued s is s')
      requests-delivered qt c s is q qs compact on a h e =
          let sends =
            ap (drop (length c.calls)) (requests-calls qt compact c is on)
            ∙ drop-append c.calls (written is) in
          (
            all-taken s is,
            (
              resume_all-wire max_message refuse (on_message fs m strtod zero moments) s
                    (map message_of is) q qs (omega arith) (short-messages is h)
                    (e ∙ ap stream_of sends ∙ stream_of-written is)
                  ∙ deliver-taken s is a h,
              all-taken-IsQueued s is,
            ),
          )
