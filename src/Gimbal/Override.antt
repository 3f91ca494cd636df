-- ===== src/Gimbal/Override.antt =====
-- Who moves the gimbal in terminal/src/app/BusinessThread.cpp: the tracker, or a client.
use qt_s5p6818_face_tracking.Base.{
  ℕ, suc, ge→ltb, inl, inr, Bool-cases, ◌+◌, ◌<◌, ◌^◌, ◌≡◌, ◌≢◌, refl, sym, ap, ◌∙◌, false, List,
  [], ◌∷◌, ◌++◌, All, arith, lt→ltb, length, replicate, append_assoc, append-nil, ap₂, subst,
}
use qt_s5p6818_face_tracking.Core.Commands.{Command, CommandType, servo_step, servo_abs, set_mode}
use qt_s5p6818_face_tracking.Core.Tracking.{Snapshot}
use qt_s5p6818_face_tracking.Gimbal.{Doubles, TrackerParams}
use qt_s5p6818_face_tracking.Gimbal.Control.{
  Control, Round, override_until, apply_type, apply_all, effective_auto, drive, round, rounds,
}

abbrev pub aim : {R : Type 0} → Control R → R × R
aim s = (s.tracker.pan, s.tracker.tilt)

module _ {R : Type 0} (D : Doubles R) (p : TrackerParams R) (m : ℕ) where
  apply_all-append :
      (s : Control R) (cs ds : List (Command R × ℕ))
      → apply_all D p m s (cs ++ ds) ≡ apply_all D p m (apply_all D p m s cs) ds
  unfolding apply_all
  apply_all-append s [] ds = refl
  apply_all-append s ((c, now) ∷ cs) ds = apply_all-append (apply_type D p m c.type s c now) cs ds

  apply_type-servo :
      (type : CommandType) (s : Control R) (c : Command R) (now : ℕ)
      → (apply_type D p m type s c now).servo ≡ s.servo
  unfolding apply_type
  apply_type-servo servo_step s c now = refl
  apply_type-servo servo_abs s c now = refl
  apply_type-servo set_mode s c now = refl

  pub apply_all-servo :
      (s : Control R) (cs : List (Command R × ℕ)) → (apply_all D p m s cs).servo ≡ s.servo
  unfolding apply_all
  apply_all-servo s [] = refl
  apply_all-servo s ((c, now) ∷ cs) =
      apply_all-servo (apply_type D p m c.type s c now) cs ∙ apply_type-servo c.type s c now

  pub apply_all-last :
      (s : Control R) (cs : List (Command R × ℕ)) (c : Command R) (t : ℕ)
      → apply_all D p m s (cs ++ (c, t) ∷ []) ≡ apply_type D p m c.type (apply_all D p m s cs) c t
  apply_all-last s cs c t = apply_all-append s cs ((c, t) ∷ []) ∙ unfold apply_all in refl

  effective_auto-apply_type :
      (s : Control R) (c : Command R) (t now : ℕ)
      → effective_auto D p m (apply_type D p m set_mode s c t) now ≡ c.auto_track
  unfolding effective_auto apply_type
  effective_auto-apply_type s c t now = elim (Bool-cases c.auto_track) [
    | inl e ↦ rw (e, ge→ltb now 0 (omega arith)) refl
    | inr e ↦ rw e refl
  ]

  -- When the last command that a pass applies sets the mode, the tracker drives the gimbal in
  -- that pass if and only if this mode is automatic.
  pub effective_auto-set_mode :
      (s : Control R) (cs : List (Command R × ℕ)) (c : Command R) (t now : ℕ)
      → c.type ≡ set_mode
      → effective_auto D p m (apply_all D p m s (cs ++ (c, t) ∷ [])) now ≡ c.auto_track
  unfolding apply_type
  effective_auto-set_mode s cs c t now e =
      rw (apply_all-last s cs c t, e) (effective_auto-apply_type (apply_all D p m s cs) c t now)

  -- A command that moves the gimbal.
  abbrev pub IsManual : Command R → Type 0
  IsManual c = c.type ≢ set_mode

  manual_until-apply_type :
      (type : CommandType) (s : Control R) (c : Command R) (t : ℕ)
      → type ≢ set_mode
      → t + m < 2 ^ 64
      → (apply_type D p m type s c t).manual_until ≡ t + m
  unfolding apply_type override_until
  manual_until-apply_type servo_step s c t ne h = omega arith
  manual_until-apply_type servo_abs s c t ne h = omega arith
  manual_until-apply_type set_mode s c t ne h = absurd (ne refl)

  effective_auto-held :
      (s : Control R) (now : ℕ) → now < s.manual_until → effective_auto D p m s now ≡ false
  unfolding effective_auto
  effective_auto-held s now h = rw (lt→ltb now s.manual_until h) (ground arith)

  -- Inside the window, a pass without commands repeats the angles.
  drive-held :
      (s : Control R) (now : ℕ) (track : Snapshot)
      → now < s.manual_until
      → (drive D p m s now track).servo ≡ s.servo ++ aim s ∷ []
        × ((drive D p m s now track).tracker ≡ s.tracker)
        × ((drive D p m s now track).manual_until ≡ s.manual_until)
  unfolding drive
  drive-held s now track h = rw (effective_auto-held s now h) (refl, refl, refl)

  -- No command is applied, and the clock has not reached `end`.
  abbrev pub IsQuiet : ℕ → Round R → Type 0
  IsQuiet end r = (r.commands ≡ []) × (r.now < end)

  -- The angles of `rs`, behind a state, repeat its own.
  abbrev Holds : List (Round R) → Type 0
  Holds rs =
      (s : Control R)
      → All (IsQuiet s.manual_until) rs
      → (rounds D p m s rs).servo ≡ s.servo ++ replicate (length rs) (aim s)

  held-drive :
      (rs : List (Round R))
      → Holds rs
      → (s : Control R) (now : ℕ) (track : Snapshot) → now < s.manual_until
      → All (IsQuiet s.manual_until) rs
      → (rounds D p m (drive D p m s now track) rs).servo
        ≡ s.servo ++ replicate (suc (length rs)) (aim s)
  held-drive rs holds s now track h q =
      let (sent, same, window) = drive-held s now track h in
      holds (drive D p m s now track) (subst (λ end. All (IsQuiet end) rs) (sym window) q)
      ∙ ap₂ (λ xs t. xs ++ replicate (length rs) (t.pan, t.tilt)) sent same
      ∙ append_assoc s.servo (aim s ∷ []) (replicate (length rs) (aim s))

  rounds-held : (rs : List (Round R)) → Holds rs
  unfolding rounds round apply_all
  rounds-held [] s q = sym (append-nil s.servo)
  rounds-held (r ∷ rs) s ((e, h), q) =
      rw (e, apply_all) (held-drive rs (rounds-held rs) s r.now r.track h q)

  -- After a manual command, where its time and the override sum below 2 ^ 64, the angles stay
  -- where the commands put them, in the pass that applies it last and in all later ones, while no
  -- command comes and the clock is inside the window.
  pub manual-held :
      (s : Control R) (cs : List (Command R × ℕ)) (c : Command R) (t now : ℕ) (track : Snapshot)
      (rs : List (Round R))
      → IsManual c
      → t + m < 2 ^ 64
      → now < t + m
      → All (IsQuiet (t + m)) rs
      → (rounds D p m s
          (record { commands = cs ++ (c, t) ∷ []; now = now; track = track } ∷ rs)).servo
        ≡ s.servo ++ replicate (suc (length rs)) (aim (apply_all D p m s (cs ++ (c, t) ∷ [])))
  unfolding rounds round
  manual-held s cs c t now track rs manual fits inside q =
      let s' = apply_all D p m s (cs ++ (c, t) ∷ []) in
      let end =
        ap (λ x. x.manual_until) (apply_all-last s cs c t)
        ∙ manual_until-apply_type c.type (apply_all D p m s cs) c t manual fits in
      held-drive rs (rounds-held rs) s' now track (omega (arith, end))
        (subst (λ e. All (IsQuiet e) rs) (sym end) q)
      ∙ ap (λ xs. xs ++ replicate (suc (length rs)) (aim s'))
          (apply_all-servo s (cs ++ (c, t) ∷ []))
