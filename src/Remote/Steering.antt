-- ===== src/Remote/Steering.antt =====
-- From pc-client/src/net/TcpClient.cpp over the terminal's session and queue to the servo that
-- terminal/src/app/BusinessThread.cpp drives.
use mathlib.Core.List.{flatten}
use qt_s5p6818_face_tracking.Base.{
  ℕ, suc, ◌+◌, ◌<◌, ◌^◌, ◌≡◌, refl, sym, ap, ◌∙◌, subst, true, List, [], ◌∷◌, ◌++◌, Bytes, Option,
  length, drop, All, map, arith, length-append,
}
use qt_s5p6818_face_tracking.Client.{Client, Qt}
use qt_s5p6818_face_tracking.Core.Commands.{Command}
use qt_s5p6818_face_tracking.Core.Tracking.{Snapshot}
use qt_s5p6818_face_tracking.Files.{FileSystem, FileManager}
use qt_s5p6818_face_tracking.Gimbal.{Doubles, TrackerParams, clamp, set_abs}
use qt_s5p6818_face_tracking.Gimbal.Control.{Control, pop_pending, apply_type, round, rounds}
use qt_s5p6818_face_tracking.Gimbal.Override.{aim, manual-held, apply_all-last}
use qt_s5p6818_face_tracking.Remote.{Intent, aim_at, command_of, requests, IsCompact, IsSendable}
use qt_s5p6818_face_tracking.Remote.Delivery.{stream_of, requests-delivered}
use qt_s5p6818_face_tracking.Session.{Session}
use qt_s5p6818_face_tracking.Session.Dispatch.{Moment, max_message, on_message, refuse}
use qt_s5p6818_face_tracking.Stream.{waiting, resume_all}

-- The pops take the commands in the order of the queue.
pop_pending-append :
    {R : Type 0} (clock : ℕ → ℕ) (k : ℕ) (q : List (Command R)) (c : Command R)
    → pop_pending clock k (suc (length q)) (q ++ c ∷ [])
      ≡ pop_pending clock k (length q) q ++ (c, clock (k + length q)) ∷ []
unfolding pop_pending
pop_pending-append clock k [] c =
    let same : k ≡ k + 0 = omega arith in ap (λ i. (c, clock i) ∷ []) same
pop_pending-append clock k (d ∷ q) c =
    let same : suc k + length q ≡ k + suc (length q) = omega arith in
    ap (λ cs. (d, clock k) ∷ cs)
      (pop_pending-append clock (suc k) q c
        ∙ ap (λ i. pop_pending clock (suc k) (length q) q ++ (c, clock i) ∷ []) same)

map-snoc :
    {A B : Type 0} (f : A → B) (xs : List A) (x : A) → map f (xs ++ x ∷ []) ≡ map f xs ++ f x ∷ []
map-snoc f [] x = refl
map-snoc f (y ∷ xs) x = ap (◌∷◌ (f y)) (map-snoc f xs x)

length-map : {A B : Type 0} (f : A → B) (xs : List A) → length (map f xs) ≡ length xs
length-map f [] = refl
length-map f (x ∷ xs) = ap suc (length-map f xs)

-- All that the queue holds when a pass of the control loop begins.
abbrev pub popped : {R : Type 0} → (ℕ → ℕ) → List (Command R) → List (Command R × ℕ)
popped clock q = pop_pending clock 0 (length q) q

popped-snoc :
    {R : Type 0} (clock : ℕ → ℕ) (q : List (Command R)) (c : Command R)
    → popped clock (q ++ c ∷ []) ≡ popped clock q ++ (c, clock (length q)) ∷ []
popped-snoc clock q c =
    let count : length (q ++ c ∷ []) ≡ suc (length q) = omega (arith, length-append q (c ∷ [])) in
    let first : 0 + length q ≡ length q = omega arith in
    ap (λ n. pop_pending clock 0 n (q ++ c ∷ [])) count
    ∙ pop_pending-append clock 0 q c
    ∙ ap (λ i. pop_pending clock 0 (length q) q ++ (c, clock i) ∷ []) first

module _ {R : Type 0} (G : Doubles R) (p : TrackerParams R) (override_ms : ℕ) where
  -- A pass that pops an absolute command last drives the servo to it, within the limits.
  round-aim_at :
      (zero : R) (b : Control R) (clock : ℕ → ℕ) (q : List (Command R)) (pan tilt : R) (now : ℕ)
      (track : Snapshot)
      → clock (length q) + override_ms < 2 ^ 64
      → now < clock (length q) + override_ms
      → (round G p override_ms b (record {
        commands = popped clock (q ++ command_of zero (aim_at pan tilt) ∷ []);
        now = now;
        track = track;
      })).servo
        ≡ b.servo ++ (clamp G pan p.pan_min p.pan_max, clamp G tilt p.tilt_min p.tilt_max) ∷ []
  unfolding rounds apply_type set_abs
  round-aim_at zero b clock q pan tilt now track fits inside =
      let c = command_of zero (aim_at pan tilt) in
      let t = clock (length q) in
      ap
        (λ cs. (round G p override_ms b (record { commands = cs; now = now; track = track })).servo)
        (popped-snoc clock q c)
      ∙ manual-held G p override_ms b (popped clock q) c t now track [] (λ e. cc) fits inside tt
      ∙ ap (λ s. b.servo ++ aim s ∷ []) (apply_all-last G p override_ms b (popped clock q) c t)

  module _ (print : R → Bytes) (strtod : Bytes → Option R) (zero : R) {D Image : Type 0}
      (fs : FileSystem D Image) (m : FileManager) (moments : ℕ → Moment Image) where
    -- When a connected client sends any commands and then an absolute aim to an authorised
    -- session with an empty queue, however the bytes are cut into reads, a pass of the control
    -- loop that pops the queue and reads the clock within the override window writes one pair of
    -- angles, the aim clamped to the limits, wherever the face is; Qt writes compact JSON, strtod
    -- reads each printed number back, and the times stay below 2 ^ 64.
    pub client_steers :
        {Image' Cert : Type 0} (qt : Qt R Image' Cert) (c : Client Image' Cert) (s : Session R D)
        (is : List (Intent R)) (pan tilt : R) (q : Bytes) (qs : List Bytes) (b : Control R)
        (clock : ℕ → ℕ) (now : ℕ) (track : Snapshot)
        → IsCompact print qt.to_json
        → c.is_connected ≡ true
        → s.authed ≡ true
        → s.queue ≡ []
        → All (IsSendable print strtod) (is ++ aim_at pan tilt ∷ [])
        → q ++ flatten qs
          ≡ stream_of print
              (drop (length c.calls) (requests qt c (is ++ aim_at pan tilt ∷ [])).calls)
        → clock (length is) + override_ms < 2 ^ 64
        → now < clock (length is) + override_ms
        → (s' : Session R D) × ((resume_all max_message refuse
                (on_message fs m strtod zero moments)
                (waiting s [])
                (q ∷ qs)
              ≡ waiting s' [])
            × ((round G p override_ms b
                  (record { commands = popped clock s'.queue; now = now; track = track })).servo
                ≡ b.servo
                  ++ (clamp G pan p.pan_min p.pan_max, clamp G tilt p.tilt_min p.tilt_max) ∷ []))
    client_steers qt c s is pan tilt q qs b clock now track compact on a empty sendable e fits
          inside =
        let (s', (delivered, (queued, rest))) =
          requests-delivered print strtod zero fs m moments qt c s (is ++ aim_at pan tilt ∷ []) q qs
            compact on a sendable e in
        let sent = map (command_of zero) is in
        let queue : s'.queue ≡ sent ++ command_of zero (aim_at pan tilt) ∷ [] =
          queued
          ∙ ap (λ x. x ++ map (command_of zero) (is ++ aim_at pan tilt ∷ [])) empty
          ∙ map-snoc (command_of zero) is (aim_at pan tilt) in
        let size : length sent ≡ length is = length-map (command_of zero) is in
        (
          s',
          (
            delivered,
            ap
                  (λ x.
                    (round G p override_ms b
                      (record { commands = popped clock x; now = now; track = track })).servo)
                  queue
                ∙ round-aim_at zero b clock sent pan tilt now track
                    (subst (λ k. clock k + override_ms < 2 ^ 64) (sym size) fits)
                    (subst (λ k. now < clock k + override_ms) (sym size) inside),
          ),
        )
