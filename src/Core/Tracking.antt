-- ===== src/Core/Tracking.antt =====
-- terminal/src/core/Types.h and TrackingState.h: the detection result that the vision thread shares
-- with the business thread. An `int` is an integer: its values are picture coordinates. The mutex
-- makes each call one step.
use qt_s5p6818_face_tracking.Base.{ℕ, zero, suc, ◌/◌, ◌+◌, Bool, true, false, ◌||◌}

pub data ℤ : Type 0 where
  pos : ℕ → ℤ
  negsuc : ℕ → ℤ

infixl 6 ◌+ℤ◌
-- `a - b`
abbrev minus : ℕ → ℕ → ℤ
minus a zero = pos a
minus zero (suc b) = negsuc b
minus (suc a) (suc b) = minus a b

abbrev pub ◌+ℤ◌ : ℤ → ℤ → ℤ
pos a +ℤ pos b = pos (a + b)
pos a +ℤ negsuc b = minus a (suc b)
negsuc a +ℤ pos b = minus b (suc a)
negsuc a +ℤ negsuc b = negsuc (suc (a + b))

-- C++'s `/ 2`, which rounds toward zero.
abbrev pub half : ℤ → ℤ
half (pos a) = pos (a / 2)
half (negsuc a) = minus 0 (suc a / 2)

-- `<= 0`
abbrev pub is_not_positive : ℤ → Bool
is_not_positive (pos zero) = true
is_not_positive (pos (suc a)) = false
is_not_positive (negsuc a) = true

pub record Point2i : Type 0 where
  pub x : ℤ
  pub y : ℤ

pub record Recti : Type 0 where
  pub x : ℤ
  pub y : ℤ
  pub w : ℤ
  pub h : ℤ

unfoldable pub center : Recti → Point2i
center r = record { x = r.x +ℤ half r.w; y = r.y +ℤ half r.h }

unfoldable pub is_empty : Recti → Bool
is_empty r = is_not_positive r.w || is_not_positive r.h

pub record Snapshot : Type 0 where
  pub found : Bool
  pub box : Recti
  pub center : Point2i
  pub frame_w : ℤ
  pub frame_h : ℤ

unfoldable pub update : Snapshot → Bool → Recti → ℤ → ℤ → Snapshot
update s found box frame_w frame_h = record {
  found = found;
  box = box;
  center = center box;
  frame_w = frame_w;
  frame_h = frame_h;
}

unfoldable pub get : Snapshot → Snapshot
get s = s
