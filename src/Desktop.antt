-- ===== src/Desktop.antt =====
-- The stand-ins for the board's devices on a desktop: terminal/src/servo/StubServo.h,
-- terminal/src/capture/HostCamera.cpp and terminal/src/display/WindowDisplay.cpp. OpenCV's capture and
-- its windows are parameters; log lines other than the throttled one are left out.
use qt_s5p6818_face_tracking.Base.{
  ℕ, ◌+◌, ◌-◌, ◌%◌, ◌^◌, ◌≤◌, ◌<◌, ◌≡◌, sym, ◌∙◌, Bool, true, false, not, ◌&&◌, List, [], ◌∷◌, ◌++◌,
  Bytes, if_lem, leb, if◌then◌else◌, append_assoc, append-nil, arith,
}
use qt_s5p6818_face_tracking.Core.Tracking.{ℤ}
use qt_s5p6818_face_tracking.Vision.Snapshots.{Chain}

-- `lines` holds the lines logged, with the time of each.
record StubServo (R : Type 0) : Type 0 where
  pub last_log : ℕ
  pub times : List ℕ
  pub lines : List (R × R)

stub_gap :
    (last now : ℕ)
    → last ≤ now
    → now < 2 ^ 64
    → leb 500 ((now + 2 ^ 64 - last) % 2 ^ 64) ≡ true
    → last + 500 ≤ now
stub_gap last now h k e = ground arith

module _ {R : Type 0} where
  abbrev new_stub : StubServo R
  new_stub = record { last_log = 0; times = []; lines = [] }

  -- `now` is what nowMs() gives; the difference is on uint64_t.
  unfoldable stub_angles : StubServo R → ℕ → R → R → StubServo R
  stub_angles s now pan tilt =
      if leb 500 ((now + 2 ^ 64 - s.last_log) % 2 ^ 64)
      then record {
        last_log = now;
        times = s.times ++ now ∷ [];
        lines = s.lines ++ (pan, tilt) ∷ [];
      }
      else s

  unfoldable stub_all : StubServo R → List (ℕ × R × R) → StubServo R
  stub_all s [] = s
  stub_all s ((now, pan, tilt) ∷ cs) = stub_all (stub_angles s now pan tilt) cs

  -- The clock does not run backwards, and stays below 2 ^ 64.
  abbrev IsSteady : ℕ → List (ℕ × R × R) → Type 0
  IsSteady last [] = Unit
  IsSteady last ((now, pan, tilt) ∷ cs) = (last ≤ now) × (now < 2 ^ 64) × IsSteady now cs

  IsSteady-le : (a b : ℕ) (cs : List (ℕ × R × R)) → a ≤ b → IsSteady b cs → IsSteady a cs
  IsSteady-le a b [] h r = tt
  IsSteady-le a b (c ∷ cs) h (p, q, r) = (omega arith, q, r)

  -- However often the angles are set, two lines of the stub are at least 500 ms apart, if the clock
  -- does not run backwards.
  stub_all-Chain :
      (cs : List (ℕ × R × R)) (s : StubServo R)
      → IsSteady s.last_log cs
      → (new : List ℕ) × ((stub_all s cs).times ≡ s.times ++ new) × Chain 500 s.last_log new
  unfolding stub_all stub_angles
  stub_all-Chain [] s r = ([], sym (append-nil s.times), tt)
  stub_all-Chain ((now, pan, tilt) ∷ cs) s (h, k, r) =
      let logged : StubServo R = record {
        last_log = now;
        times = s.times ++ now ∷ [];
        lines = s.lines ++ (pan, tilt) ∷ [];
      } in
      if_lem
        (λ t. (new : List ℕ) × ((stub_all t cs).times ≡ s.times ++ new) × Chain 500 s.last_log new)
        (leb 500 ((now + 2 ^ 64 - s.last_log) % 2 ^ 64)) logged s
        (λ f.
          let (new, e, chain) = stub_all-Chain cs logged r in
          (
            now ∷ new,
            e ∙ append_assoc s.times (now ∷ []) new,
            (stub_gap s.last_log now h k f, chain),
          ))
        (λ f. stub_all-Chain cs s (IsSteady-le s.last_log now cs h r))

-- OpenCV's capture device; `get` is the double that it gives, cast to int.
data Property : Type 0 where
  frame_width frame_height frame_rate : Property

record VideoCapture (C Image : Type 0) : Type 0 where
  pub open_index : C → ℤ → C × Bool
  pub set : C → Property → ℤ → C
  pub get : C → Property → ℤ
  pub read : C → C × Bool × Image
  pub is_opened : C → Bool
  pub release : C → C
  pub is_empty : Image → Bool

record HostCamera (C : Type 0) : Type 0 where
  pub index : ℤ
  pub width : ℤ
  pub height : ℤ
  pub fps : ℤ
  pub cap : C

module _ {C Image : Type 0} (cv : VideoCapture C Image) where
  -- What is asked of the device, in the order of the calls.
  abbrev asked : HostCamera C → C → C
  asked c cap =
      let cap = cv.set cap frame_width c.width in
      let cap = cv.set cap frame_height c.height in cv.set cap frame_rate c.fps

  -- The size is then what the device says it is.
  unfoldable open_host : HostCamera C → HostCamera C × Bool
  open_host c =
      let (cap, opened) = cv.open_index c.cap c.index in
      let set = asked c cap in
      if not opened then (record c { cap = cap }, false) else (
        record c { width = cv.get set frame_width; height = cv.get set frame_height; cap = set },
        true,
      )

  unfoldable grab_host : HostCamera C → HostCamera C × Bool × Image
  grab_host c =
      let (cap, done, picture) = cv.read c.cap in
      (record c { cap = cap }, done && not (cv.is_empty picture), picture)

  unfoldable close_host : HostCamera C → HostCamera C
  close_host c = if cv.is_opened c.cap then record c { cap = cv.release c.cap } else c

-- The calls of OpenCV's windows.
data WindowCall (Image : Type 0) : Type 0 where
  named_window : Bytes → WindowCall Image
  imshow : Bytes → Image → WindowCall Image
  wait_key : ℕ → WindowCall Image
  destroy_all : WindowCall Image

-- The methods of WindowDisplay as the calls that they make; `dev_host` is whether DEV_HOST is defined.
module _ {Image : Type 0} (dev_host : Bool) where
  unfoldable open_window : Bytes → List (WindowCall Image) × Bool
  open_window title = if dev_host then (named_window title ∷ [], true) else ([], false)

  unfoldable show_window : Bytes → Image → Bool → List (WindowCall Image)
  show_window title bgr is_empty =
      if dev_host then if not is_empty then imshow title bgr ∷ wait_key 1 ∷ [] else [] else []

  unfoldable close_window : List (WindowCall Image)
  close_window = if dev_host then destroy_all ∷ [] else []
