-- ===== src/Gimbal/Nan.antt =====
-- What a NaN does to the gimbal of terminal/src/app/BusinessThread.cpp. A client can send one:
-- MiniJson.h reads numbers by strtod, which accepts the text `nan`.
use qt_s5p6818_face_tracking.Base.{
  ℕ, ◌≡◌, ◌≢◌, refl, ◌∙◌, ap, false, not, ◌||◌, List, [], ◌∷◌, All, inl, inr, Bool-cases,
}
use qt_s5p6818_face_tracking.Core.Commands.{Command, CommandType, servo_step, servo_abs, set_mode}
use qt_s5p6818_face_tracking.Core.Tracking.{Snapshot, is_not_positive}
use qt_s5p6818_face_tracking.Gimbal.{
  Doubles, TrackerParams, PanTiltTracker, clamp, nudge, set_abs, update_auto,
}
use qt_s5p6818_face_tracking.Gimbal.Control.{
  Control, Round, apply_type, apply_all, effective_auto, drive, round, rounds,
}

-- What IEEE 754 says of a NaN in comparisons and sums.
pub record IsNan {R : Type 0} (D : Doubles R) (v : R) : Type 0 where
  pub not_below : (x : R) → D.lt v x ≡ false
  pub not_above : (x : R) → D.lt x v ≡ false
  pub sum : (x : R) → D.add v x ≡ v

module _ {R : Type 0} (D : Doubles R) (p : TrackerParams R) (m : ℕ) (nan : R)
    (n : IsNan D nan) where
  clamp-nan : (lo hi : R) → clamp D nan lo hi ≡ nan
  unfolding clamp
  clamp-nan lo hi = rw (n.not_below lo, n.not_above hi) refl

  clamp-add : (v x lo hi : R) → v ≡ nan → clamp D (D.add v x) lo hi ≡ nan
  clamp-add v x lo hi e =
      ap (λ y. clamp D y lo hi) (ap (λ w. D.add w x) e ∙ n.sum x) ∙ clamp-nan lo hi

  -- The clamp lets a NaN through.
  set_abs-nan : (t : PanTiltTracker R) (tilt : R) → (set_abs D p t nan tilt).pan ≡ nan
  unfolding set_abs
  set_abs-nan t tilt = clamp-nan p.pan_min p.pan_max

  update_auto-nan :
      (t : PanTiltTracker R) (s : Snapshot) → t.pan ≡ nan → (update_auto D p t s).pan ≡ nan
  unfolding update_auto
  update_auto-nan t s e =
      elim (Bool-cases (not s.found || is_not_positive s.frame_w || is_not_positive s.frame_h)) [
        | inl hold ↦ rw hold e
        | inr f ↦ rw f (clamp-add t.pan _ p.pan_min p.pan_max e)
      ]

  apply_type-nan :
      (type : CommandType) (s : Control R) (c : Command R) (now : ℕ)
      → type ≢ servo_abs
      → s.tracker.pan ≡ nan
      → (apply_type D p m type s c now).tracker.pan ≡ nan
  unfolding apply_type nudge
  apply_type-nan servo_step s c now ne e = clamp-add s.tracker.pan c.pan p.pan_min p.pan_max e
  apply_type-nan servo_abs s c now ne e = absurd (ne refl)
  apply_type-nan set_mode s c now ne e = e

  apply_all-nan :
      (s : Control R) (cs : List (Command R × ℕ))
      → All (λ c. c.0.type ≢ servo_abs) cs
      → s.tracker.pan ≡ nan
      → (apply_all D p m s cs).tracker.pan ≡ nan
  unfolding apply_all
  apply_all-nan s [] a e = e
  apply_all-nan s ((c, now) ∷ cs) (ne, a) e =
      apply_all-nan (apply_type D p m c.type s c now) cs a (apply_type-nan c.type s c now ne e)

  drive-nan :
      (s : Control R) (now : ℕ) (track : Snapshot)
      → s.tracker.pan ≡ nan
      → (drive D p m s now track).tracker.pan ≡ nan
  unfolding drive
  drive-nan s now track e = elim (Bool-cases (effective_auto D p m s now)) [
    | inl on ↦ rw on (update_auto-nan s.tracker track e)
    | inr off ↦ rw off e
  ]

  -- A pan angle that is a NaN (it compares below and above nothing, and sums with it are it)
  -- stays it through any passes of the control loop, as long as no command sets the angles
  -- absolutely.
  pub rounds-nan :
      (s : Control R) (rs : List (Round R))
      → s.tracker.pan ≡ nan
      → All (λ r. All (λ c. c.0.type ≢ servo_abs) r.commands) rs
      → (rounds D p m s rs).tracker.pan ≡ nan
  unfolding rounds round
  rounds-nan s [] e a = e
  rounds-nan s (r ∷ rs) e (a, b) =
      rounds-nan (round D p m s r) rs
        (drive-nan (apply_all D p m s r.commands) r.now r.track (apply_all-nan s r.commands a e)) b
