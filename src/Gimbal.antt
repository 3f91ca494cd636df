-- ===== src/Gimbal.antt =====
-- terminal/src/servo/PanTiltTracker.cpp: from the centre of the face to the angles of the gimbal.
-- `Doubles` stands for the C++ type double: a carrier with the operations the code uses.
pub mod Control
pub mod Limits
pub mod Override
pub mod Nan
pub mod Servo
pub mod Startup
use qt_s5p6818_face_tracking.Base.{Bool, true, false, not, ◌||◌, if◌then◌else◌}
use qt_s5p6818_face_tracking.Core.Tracking.{ℤ, pos, is_not_positive, Snapshot, Point2i}

pub record Doubles (R : Type 0) : Type 0 where
  pub lt : R → R → Bool
  pub add : R → R → R
  pub sub : R → R → R
  pub mul : R → R → R
  pub div : R → R → R
  pub neg : R → R
  pub abs : R → R
  pub of_int : ℤ → R

pub record TrackerParams (R : Type 0) : Type 0 where
  pub pan_min : R
  pub pan_max : R
  pub pan_home : R
  pub tilt_min : R
  pub tilt_max : R
  pub tilt_home : R
  pub deadzone_px : ℤ
  pub gain_pan : R
  pub gain_tilt : R
  pub max_step_deg : R
  pub pan_sign : R
  pub tilt_sign : R

pub record PanTiltTracker (R : Type 0) : Type 0 where
  pub pan : R
  pub tilt : R

module _ {R : Type 0} (D : Doubles R) where
  -- std::clamp, as the C++ standard words it.
  unfoldable pub clamp : R → R → R → R
  clamp v lo hi = if D.lt v lo then lo else if D.lt hi v then hi else v

  -- How far an axis moves for an error of `e` pixels.
  unfoldable pub axis_step : TrackerParams R → R → R → R → R
  unfolding clamp
  axis_step p sign gain e =
      clamp
        (if D.lt (D.of_int p.deadzone_px) (D.abs e)
          then D.mul (D.mul sign gain) e
          else D.of_int (pos 0))
        (D.neg p.max_step_deg) p.max_step_deg

  unfoldable pub nudge : TrackerParams R → PanTiltTracker R → R → R → PanTiltTracker R
  nudge p t d_pan d_tilt = record {
    pan = clamp (D.add t.pan d_pan) p.pan_min p.pan_max;
    tilt = clamp (D.add t.tilt d_tilt) p.tilt_min p.tilt_max;
  }

  unfoldable pub update_auto : TrackerParams R → PanTiltTracker R → Snapshot → PanTiltTracker R
  unfolding axis_step
  update_auto p t s =
      if not s.found || is_not_positive s.frame_w || is_not_positive s.frame_h
      then t
      else let ex = D.sub (D.of_int s.center.x) (D.div (D.of_int s.frame_w) (D.of_int (pos 2))) in
        let ey = D.sub (D.of_int s.center.y) (D.div (D.of_int s.frame_h) (D.of_int (pos 2))) in
        let d_pan = axis_step p p.pan_sign p.gain_pan ex in
        let d_tilt = axis_step p p.tilt_sign p.gain_tilt ey in
        record {
          pan = clamp (D.add t.pan d_pan) p.pan_min p.pan_max;
          tilt = clamp (D.add t.tilt d_tilt) p.tilt_min p.tilt_max;
        }

  unfoldable pub set_abs : TrackerParams R → PanTiltTracker R → R → R → PanTiltTracker R
  set_abs p t pan_deg tilt_deg = record {
    pan = clamp pan_deg p.pan_min p.pan_max;
    tilt = clamp tilt_deg p.tilt_min p.tilt_max;
  }

unfoldable pub home : {R : Type 0} → TrackerParams R → PanTiltTracker R → PanTiltTracker R
home p t = record { pan = p.pan_home; tilt = p.tilt_home }

-- The constructor.
unfoldable pub create : {R : Type 0} → TrackerParams R → PanTiltTracker R
create p = record { pan = p.pan_home; tilt = p.tilt_home }
