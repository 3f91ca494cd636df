-- ===== src/Gimbal/Limits.antt =====
-- What limits the gimbal of terminal/src/app/BusinessThread.cpp.
use qt_s5p6818_face_tracking.Base.{
  ℕ, ◌≡◌, sym, false, not, ◌||◌, subst, List, [], ◌∷◌, inl, inr, Bool-cases, All, All-append,
}
use qt_s5p6818_face_tracking.Core.Commands.{Command, CommandType, servo_step, servo_abs, set_mode}
use qt_s5p6818_face_tracking.Core.Tracking.{Snapshot, is_not_positive}
use qt_s5p6818_face_tracking.Gimbal.{
  Doubles, TrackerParams, PanTiltTracker, clamp, nudge, set_abs, update_auto, create,
}
use qt_s5p6818_face_tracking.Gimbal.Control.{
  Control, Round, start, apply_type, apply_all, effective_auto, drive, round, rounds,
}
use qt_s5p6818_face_tracking.Gimbal.Override.{apply_all-servo}

module _ {R : Type 0} (D : Doubles R) where
  -- By the comparisons of doubles: not below the one and not above the other.
  abbrev pub IsBetween : R → R → R → Type 0
  IsBetween lo hi v = (D.lt v lo ≡ false) × (D.lt hi v ≡ false)

  abbrev pub IsInLimits : TrackerParams R → R × R → Type 0
  IsInLimits p (pan, tilt) =
      IsBetween p.pan_min p.pan_max pan × IsBetween p.tilt_min p.tilt_max tilt

  -- Limits that make sense: no minimum above its maximum, and the home position inside.
  pub record IsSane (p : TrackerParams R) : Type 0 where
    pub pan_order : D.lt p.pan_max p.pan_min ≡ false
    pub tilt_order : D.lt p.tilt_max p.tilt_min ≡ false
    pub home : IsInLimits p (p.pan_home, p.tilt_home)

  clamp-IsBetween :
      ((x : R) → D.lt x x ≡ false)
      → (v lo hi : R) → D.lt hi lo ≡ false
      → IsBetween lo hi (clamp D v lo hi)
  unfolding clamp
  clamp-IsBetween irreflexive v lo hi h = elim (Bool-cases (D.lt v lo)) [
    | inl below ↦ rw below (irreflexive lo, h)
    | inr e ↦ elim (Bool-cases (D.lt hi v)) [
      | inl above ↦ rw (e, above) (h, irreflexive hi)
      | inr f ↦ rw (e, f) (e, f)
    ]
  ]

  module _ (p : TrackerParams R) (irreflexive : (x : R) → D.lt x x ≡ false) (sane : IsSane p) where
    clamped :
        (a b : R) → IsInLimits p (clamp D a p.pan_min p.pan_max, clamp D b p.tilt_min p.tilt_max)
    clamped a b = (
      clamp-IsBetween irreflexive a p.pan_min p.pan_max sane.pan_order,
      clamp-IsBetween irreflexive b p.tilt_min p.tilt_max sane.tilt_order,
    )

    update_auto-IsInLimits :
        (t : PanTiltTracker R) (s : Snapshot)
        → IsInLimits p (t.pan, t.tilt)
        → IsInLimits p ((update_auto D p t s).pan, (update_auto D p t s).tilt)
    unfolding update_auto
    update_auto-IsInLimits t s h =
        elim (Bool-cases (not s.found || is_not_positive s.frame_w || is_not_positive s.frame_h)) [
          | inl hold ↦ rw hold h
          | inr e ↦ rw e (clamped _ _)
        ]

    apply_type-IsInLimits :
        (m : ℕ) (type : CommandType) (s : Control R) (c : Command R) (now : ℕ)
        → IsInLimits p (s.tracker.pan, s.tracker.tilt)
        → IsInLimits p (
          (apply_type D p m type s c now).tracker.pan,
          (apply_type D p m type s c now).tracker.tilt,
        )
    unfolding apply_type nudge set_abs
    apply_type-IsInLimits m servo_step s c now h = clamped _ _
    apply_type-IsInLimits m servo_abs s c now h = clamped _ _
    apply_type-IsInLimits m set_mode s c now h = h

    apply_all-IsInLimits :
        (m : ℕ) (s : Control R) (cs : List (Command R × ℕ))
        → IsInLimits p (s.tracker.pan, s.tracker.tilt)
        → IsInLimits p ((apply_all D p m s cs).tracker.pan, (apply_all D p m s cs).tracker.tilt)
    unfolding apply_all
    apply_all-IsInLimits m s [] h = h
    apply_all-IsInLimits m s ((c, now) ∷ cs) h =
        apply_all-IsInLimits m (apply_type D p m c.type s c now) cs
          (apply_type-IsInLimits m c.type s c now h)

    -- What holds between two rounds.
    abbrev IsKept : Control R → Type 0
    IsKept s = IsInLimits p (s.tracker.pan, s.tracker.tilt) × All (IsInLimits p) s.servo

    drive-IsKept :
        (m : ℕ) (s : Control R) (now : ℕ) (track : Snapshot)
        → IsKept s
        → IsKept (drive D p m s now track)
    unfolding drive
    drive-IsKept m s now track (h, k) = elim (Bool-cases (effective_auto D p m s now)) [
      | inl e ↦
          let moved = update_auto-IsInLimits s.tracker track h in
          rw e (moved, All-append (IsInLimits p) s.servo _ k (moved, tt))
      | inr e ↦ rw e (h, All-append (IsInLimits p) s.servo _ k (h, tt))
    ]

    rounds-IsKept :
        (m : ℕ) (s : Control R) (rs : List (Round R)) → IsKept s → IsKept (rounds D p m s rs)
    unfolding rounds round
    rounds-IsKept m s [] h = h
    rounds-IsKept m s (r ∷ rs) (h, k) = rounds-IsKept m (round D p m s r) rs (
        drive-IsKept m (apply_all D p m s r.commands) r.now r.track (
          apply_all-IsInLimits m s r.commands h,
          subst (All (IsInLimits p)) (sym (apply_all-servo D p m s r.commands)) k,
        ))

    -- Whatever clients command and the camera sees, every pair of angles given to the servo is
    -- inside the limits by the comparisons of doubles; no double is less than itself, and the
    -- limits are sane.
    pub servo-IsInLimits :
        (m : ℕ) (rs : List (Round R))
        → All (IsInLimits p) (rounds D p m (start D p m (create p)) rs).servo
    unfolding start create
    servo-IsInLimits m rs = (rounds-IsKept m (start D p m (create p)) rs (sane.home, tt)).1
