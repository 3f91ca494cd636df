-- ===== src/Video.antt =====
-- The way of the video: terminal/src/app/VisionThread.cpp publishes frames on the hub, and the session
-- of terminal/src/net/ClientSession.cpp sends the latest one, when the scheduler lets each do so.
pub mod Turns
pub mod Order
use qt_s5p6818_face_tracking.Base.{
  if_lem, ◌≢◌, subst, ℕ, suc, ◌+◌, ◌-◌, ◌%◌, ◌^◌, ◌≤◌, ◌<◌, ◌≡◌, ◌⊎◌, refl, sym, ap, ◌∙◌, inl, inr,
  Bool, true, false, Bool-cases, List, [], ◌∷◌, ◌++◌, map, Bytes, Option, none, some, length,
  append-nil, append_assoc, All, ◌==◌, if◌then◌else◌, arith,
}
use qt_s5p6818_face_tracking.Core.Hub.{Frame, latest, publish}
use qt_s5p6818_face_tracking.Protocol.{build_video_frame}
use qt_s5p6818_face_tracking.Session.{Session, send, send_frame_if_new}
use qt_s5p6818_face_tracking.Vision.{Capture, Vision, see, take_in}

-- A pass of the vision loop, or the time for the session to send a frame.
pub data Turn (Image : Type 0) : Type 0 where
  sees : Capture Image → Turn Image
  pushes : Turn Image

-- The session sends no more when a write has failed.
pub record Video (R D Image : Type 0) : Type 0 where
  pub vision : Vision Image
  pub session : Session R D
  pub alive : Bool

-- The frame of a picture, under a number.
abbrev pub frame_of : {Image : Type 0} → ℕ → Capture Image → Frame Image
frame_of n c = record {
  mat = c.marked;
  jpeg = c.jpeg;
  seq = n;
  width = c.cols;
  height = c.rows;
  ts_ms = c.frame_ms;
}

-- The frames of the pictures that are grabbed, numbered from `n` on.
abbrev pub published : {Image : Type 0} → ℕ → List (Turn Image) → List (Frame Image)
published n [] = []
published n (sees c ∷ ts) =
    if c.grabbed then frame_of n c ∷ published (suc n) ts else published n ts
published n (pushes ∷ ts) = published n ts

abbrev pub video_message : {Image : Type 0} → Frame Image → Bytes
video_message f = build_video_frame f.seq (f.width % 2 ^ 32) (f.height % 2 ^ 32) f.ts_ms f.jpeg

-- Numbers from `low` on, each above the one before it.
abbrev pub Rises : {Image : Type 0} → ℕ → List (Frame Image) → Type 0
Rises low [] = Unit
Rises low (f ∷ fs) = (low ≤ f.seq) × Rises (suc f.seq) fs

abbrev pub In : {Image : Type 0} → Frame Image → List (Frame Image) → Type 0
In f [] = ⊥
In f (g ∷ gs) = (f ≡ g) ⊎ In f gs

module _ {R D Image : Type 0} (auto_snapshot : Bool) (interval_ms : ℕ) where
  unfoldable pub turn : Video R D Image → Turn Image → Video R D Image
  turn d (sees c) = record d { vision = see auto_snapshot interval_ms d.vision c }
  turn d pushes =
      let (s, alive) = send_frame_if_new d.session (latest d.vision.hub) in
      if d.alive then record d { session = s; alive = alive } else d

  unfoldable pub turns : Video R D Image → List (Turn Image) → Video R D Image
  turns d [] = d
  turns d (t ∷ ts) = turns (turn d t) ts
