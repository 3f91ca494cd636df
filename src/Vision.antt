-- ===== src/Vision.antt =====
-- terminal/src/app/VisionThread.cpp and terminal/src/vision/FaceDetector.cpp: from the camera's
-- pictures to frames, tracking results and snapshots. OpenCV and the camera are not part of the
-- program: what they give in one pass of the loop is a `Capture`. The frame rate is not modelled.
pub mod Snapshots
pub mod Faces
use qt_s5p6818_face_tracking.Base.{
  ℕ, ◌+◌, ◌-◌, ◌*◌, ◌%◌, ◌^◌, Bool, true, false, not, ◌&&◌, ◌||◌, List, [], ◌∷◌, ◌++◌, Bytes,
  Option, none, some, ltb, leb, if◌then◌else◌,
}
use qt_s5p6818_face_tracking.Base.Text.{is_some}
use qt_s5p6818_face_tracking.Core.Hub.{Frame, publish}
use qt_s5p6818_face_tracking.Core.Tracking.{ℤ, pos, Recti, Snapshot, update}

-- A face as the classifier gives it, in the scaled picture; its sizes are not negative.
pub record Face : Type 0 where
  pub x : ℕ
  pub y : ℕ
  pub width : ℕ
  pub height : ℕ

abbrev pub area : Face → ℕ
area f = f.width * f.height

-- The loop for the largest face: the first of those with the largest area.
unfoldable pub largest : Face → List Face → Face
largest best [] = best
largest best (f ∷ fs) = largest (if ltb (area best) (area f) then f else best) fs

-- `to_full` is the cast to int of a coordinate times the inverse of the scale.
unfoldable pub detect : (ℕ → ℤ) → Bool → List Face → Option Recti
detect to_full is_empty [] = none
detect to_full is_empty (f ∷ fs) =
    let best = largest f (f ∷ fs) in
    if is_empty
    then none
    else some (record {
      x = to_full best.x;
      y = to_full best.y;
      w = to_full best.width;
      h = to_full best.height;
    })

-- What a pass of the loop meets: the picture grabbed, if one was, its size, what the detector finds,
-- the picture with its marks, the JPEG of it, and two readings of the clock.
pub record Capture (Image : Type 0) : Type 0 where
  pub grabbed : Bool
  pub cols : ℕ
  pub rows : ℕ
  pub found : Option Recti
  pub marked : Image
  pub jpeg : Bytes
  pub frame_ms : ℕ
  pub now : ℕ

-- The loop's variables and what the thread shares; `saved` lists the times of the snapshots taken.
pub record Vision (Image : Type 0) : Type 0 where
  pub seq : ℕ
  pub last_snap_ms : ℕ
  pub prev_found : Bool
  pub hub : Option (Frame Image)
  pub track : Snapshot
  pub face_found : Bool
  pub saved : List ℕ

abbrev box_or_empty : Option Recti → Recti
box_or_empty none = record { x = pos 0; y = pos 0; w = pos 0; h = pos 0 }
box_or_empty (some box) = box

module _ {Image : Type 0} (auto_snapshot : Bool) (interval_ms : ℕ) where
  -- The guard of the snapshot, with the difference on uint64_t.
  unfoldable pub is_due : Vision Image → Capture Image → Bool
  is_due v c =
      auto_snapshot
      && is_some c.found
      && not v.prev_found
      && leb interval_ms ((c.now + 2 ^ 64 - v.last_snap_ms) % 2 ^ 64)

  unfoldable pub take_in : Vision Image → Capture Image → Vision Image
  take_in v c = record {
    seq = (v.seq + 1) % 2 ^ 32;
    last_snap_ms = if is_due v c then c.now else v.last_snap_ms;
    prev_found = is_some c.found;
    hub = publish v.hub (record {
      mat = c.marked;
      jpeg = c.jpeg;
      seq = v.seq;
      width = c.cols;
      height = c.rows;
      ts_ms = c.frame_ms;
    });
    track = update v.track (is_some c.found) (box_or_empty c.found) (pos c.cols) (pos c.rows);
    face_found = is_some c.found;
    saved = if is_due v c then v.saved ++ c.now ∷ [] else v.saved;
  }

  -- One pass of the loop.
  unfoldable pub see : Vision Image → Capture Image → Vision Image
  unfolding take_in
  see v c = if not c.grabbed then v else take_in v c

  unfoldable pub see_all : Vision Image → List (Capture Image) → Vision Image
  see_all v [] = v
  see_all v (c ∷ cs) = see_all (see v c) cs
