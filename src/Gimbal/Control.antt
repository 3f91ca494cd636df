-- ===== src/Gimbal/Control.antt =====
-- terminal/src/app/BusinessThread.cpp: the control loop. One `round` is one pass of its outer loop;
-- what differs from pass to pass is in `Round`: the commands that its inner loop pops,
-- in order, each with what nowMs() gives when it is applied, the clock behind them, and the shared tracking state.
use qt_s5p6818_face_tracking.Base.{
  ℕ, zero, suc, none, some, ◌+◌, ◌%◌, ◌^◌, Bool, true, not, ◌&&◌, List, [], ◌∷◌, ◌++◌, ltb,
  if◌then◌else◌,
}
use qt_s5p6818_face_tracking.Core.Commands.{
  Command, CommandType, servo_step, servo_abs, set_mode, try_pop,
}
use qt_s5p6818_face_tracking.Core.Tracking.{Snapshot, pos}
use qt_s5p6818_face_tracking.Gimbal.{
  Doubles, TrackerParams, PanTiltTracker, nudge, set_abs, update_auto,
}

-- The loop's variables and what it wrote: the angles given to the servo, in order, and the
-- StatusBoard's three fields.
pub record Control (R : Type 0) : Type 0 where
  pub tracker : PanTiltTracker R
  pub auto_enabled : Bool
  pub manual_until : ℕ
  pub servo : List (R × R)
  pub auto_track : Bool
  pub pan_angle : R
  pub tilt_angle : R

pub record Round (R : Type 0) : Type 0 where
  pub commands : List (Command R × ℕ)
  pub now : ℕ
  pub track : Snapshot

-- The inner loop's pops, of `n` commands at most; `clock k` is what nowMs() gives for the k-th. While
-- nothing is pushed, the queue's length is enough.
unfoldable pub pop_pending :
    {R : Type 0} → (ℕ → ℕ) → ℕ → ℕ → List (Command R) → List (Command R × ℕ)
unfolding try_pop
pop_pending clock k zero q = []
pop_pending clock k (suc n) q = elim (try_pop q) [
  | none ↦ []
  | some (c, q') ↦ (c, clock k) ∷ pop_pending clock (suc k) n q'
]

module _ {R : Type 0} (D : Doubles R) (p : TrackerParams R) (manual_override_ms : ℕ) where
  -- The start of `run`, on a new StatusBoard.
  unfoldable pub start : PanTiltTracker R → Control R
  start t = record {
    tracker = t;
    auto_enabled = true;
    manual_until = 0;
    servo = [];
    auto_track = true;
    pan_angle = D.of_int (pos 90);
    tilt_angle = D.of_int (pos 90);
  }

  -- The sum is a uint64_t.
  unfoldable pub override_until : ℕ → ℕ
  override_until now = (now + manual_override_ms) % 2 ^ 64

  -- The `switch` over the command's type.
  unfoldable pub apply_type : CommandType → Control R → Command R → ℕ → Control R
  apply_type servo_step s c now = record s {
    tracker = nudge D p s.tracker c.pan c.tilt;
    manual_until = override_until now;
  }
  apply_type servo_abs s c now = record s {
    tracker = set_abs D p s.tracker c.pan c.tilt;
    manual_until = override_until now;
  }
  apply_type set_mode s c now = record s {
    auto_enabled = c.auto_track;
    manual_until = if c.auto_track then 0 else s.manual_until;
  }

  unfoldable pub apply_all : Control R → List (Command R × ℕ) → Control R
  apply_all s [] = s
  apply_all s ((c, now) ∷ cs) = apply_all (apply_type c.type s c now) cs

  unfoldable pub effective_auto : Control R → ℕ → Bool
  effective_auto s now = s.auto_enabled && not (ltb now s.manual_until)

  -- Behind the commands: track, drive the servo, report.
  unfoldable pub drive : Control R → ℕ → Snapshot → Control R
  drive s now track =
      let t = if effective_auto s now then update_auto D p s.tracker track else s.tracker in
      record s {
        tracker = t;
        servo = s.servo ++ (t.pan, t.tilt) ∷ [];
        auto_track = effective_auto s now;
        pan_angle = t.pan;
        tilt_angle = t.tilt;
      }

  unfoldable pub round : Control R → Round R → Control R
  unfolding apply_all drive
  round s r = drive (apply_all s r.commands) r.now r.track

  unfoldable pub rounds : Control R → List (Round R) → Control R
  rounds s [] = s
  rounds s (r ∷ rs) = rounds (round s r) rs
