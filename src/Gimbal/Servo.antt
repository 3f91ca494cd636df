-- ===== src/Gimbal/Servo.antt =====
-- terminal/src/servo/ServoController.cpp: the two servos behind the PWM files of sysfs. The kernel's
-- side is a log of the writes tried, whether each works, and what each `stat` of a channel gives.
use qt_s5p6818_face_tracking.Base.{
  ℕ, zero, suc, ◌≡◌, refl, ap, ◌∙◌, append_assoc, arith, inl, inr, Bool-cases, Bool, true, false,
  not, List, [], ◌∷◌, ◌++◌, Bytes, length, if◌then◌else◌,
}
use qt_s5p6818_face_tracking.Base.Text.{codes, to_string}
use qt_s5p6818_face_tracking.Core.Tracking.{ℤ, pos}
use qt_s5p6818_face_tracking.Gimbal.{Doubles, clamp}

pub record Sysfs : Type 0 where
  -- The path and the text of each write, in order.
  pub writes : List (Bytes × Bytes)
  pub writable : ℕ → Bool
  pub stats : ℕ
  pub present : ℕ → Bool

-- `print` is std::to_string(long), and `round_down` is the cast of a double to long.
pub record ServoController (R : Type 0) : Type 0 where
  pub chip_path : Bytes
  pub pan_channel : ℕ
  pub tilt_channel : ℕ
  pub period_ns : ℤ
  pub min_duty_ns : ℤ
  pub max_duty_ns : ℤ
  pub ready : Bool
  pub sysfs : Sysfs

pub record Longs (R : Type 0) : Type 0 where
  pub print : ℤ → Bytes
  pub add : ℤ → ℤ → ℤ
  pub sub : ℤ → ℤ → ℤ
  pub round_down : R → ℤ

module _ {R : Type 0} where
  unfoldable pub chan_dir : ServoController R → ℕ → Bytes
  chan_dir s ch = s.chip_path ++ (codes "/pwm" ++ to_string ch)

  unfoldable pub write_str : ServoController R → Bytes → Bytes → ServoController R × Bool
  write_str s path value =
      let f = s.sysfs in
      (
        record s { sysfs = record f { writes = f.writes ++ (path, value) ∷ [] } },
        f.writable (length f.writes),
      )

  unfoldable pub stat : ServoController R → ServoController R × Bool
  stat s =
      let f = s.sysfs in (record s { sysfs = record f { stats = suc f.stats } }, f.present f.stats)

  -- The wait for the channel's directory, with `k` looks left.
  unfoldable pub await : ℕ → ServoController R → ServoController R × Bool
  await zero s = (s, false)
  await (suc k) s =
      let (s', there) = stat s in let later = await k s' in if there then (s', true) else later

  unfoldable pub export_channel : ServoController R → ℕ → ServoController R × Bool
  export_channel s ch =
      let (s', there) = stat s in
      let (s'', written) = write_str s' (s'.chip_path ++ codes "/export") (to_string ch) in
      if there then (s', true) else if not written then (s'', false) else await 20 s''

module _ {R : Type 0} (D : Doubles R) (L : Longs R) where
  unfoldable pub angle_to_duty_ns : ServoController R → R → ℤ
  angle_to_duty_ns s angle_deg =
      let a = clamp D angle_deg (D.of_int (pos 0)) (D.of_int (pos 180)) in
      L.add s.min_duty_ns (
        L.round_down
          (D.mul (D.div a (D.of_int (pos 180))) (D.of_int (L.sub s.max_duty_ns s.min_duty_ns))))

  unfoldable pub set_channel_angle : ServoController R → ℕ → R → ServoController R
  set_channel_angle s ch angle_deg =
      (write_str s (chan_dir s ch ++ codes "/duty_cycle")
        (L.print (angle_to_duty_ns s angle_deg))).0

  unfoldable pub config_channel : ServoController R → ℕ → ServoController R × Bool
  config_channel s ch =
      let dir = chan_dir s ch in
      let s1 = (write_str s (dir ++ codes "/duty_cycle") (codes "0")).0 in
      let (s2, period_set) = write_str s1 (dir ++ codes "/period") (L.print s1.period_ns) in
      let s3 = set_channel_angle s2 ch (D.of_int (pos 90)) in
      let (s4, enabled) = write_str s3 (dir ++ codes "/enable") (codes "1") in
      if not period_set then (s2, false) else (s4, enabled)

  -- `!first(s) || !second(...)`: the second runs on what the first left, if the first works.
  abbrev pub both :
      (ServoController R → ServoController R × Bool)
      → (ServoController R → ServoController R × Bool)
      → ServoController R
      → ServoController R × Bool
  both first second s =
      let (s', done) = first s in let next = second s' in if done then next else (s', false)

  unfoldable pub init : ServoController R → ServoController R × Bool
  init s =
      let exports =
        both (λ t. export_channel t t.pan_channel) (λ t. export_channel t t.tilt_channel) in
      let configs =
        both (λ t. config_channel t t.pan_channel) (λ t. config_channel t t.tilt_channel) in
      let (s', done) = both exports configs s in
      if done then (record s' { ready = true }, true) else (s', false)

  unfoldable pub set_angles : ServoController R → R → R → ServoController R
  set_angles s pan_deg tilt_deg =
      if not s.ready
      then s
      else set_channel_angle (set_channel_angle s s.pan_channel pan_deg) s.tilt_channel tilt_deg

unfoldable pub release : {R : Type 0} → ServoController R → ServoController R
release s =
    if not s.ready
    then s
    else let s1 = (write_str s (chan_dir s s.pan_channel ++ codes "/enable") (codes "0")).0 in
      let s2 = (write_str s1 (chan_dir s1 s1.tilt_channel ++ codes "/enable") (codes "0")).0 in
      record s2 { ready = false }

module _ {R : Type 0} (D : Doubles R) (L : Longs R) where
  abbrev pub set_all : ServoController R → List (R × R) → ServoController R
  set_all s [] = s
  set_all s ((pan, tilt) ∷ angles) = set_all (set_angles D L s pan tilt) angles

  set_angles-silent :
      (s : ServoController R) (pan tilt : R) → s.ready ≡ false → set_angles D L s pan tilt ≡ s
  unfolding set_angles
  set_angles-silent s pan tilt e = elim (Bool-cases (not s.ready)) [
    | inl f ↦ rw f refl
    | inr f ↦ absurd (ground arith)
  ]

  silent : (s : ServoController R) (angles : List (R × R)) → s.ready ≡ false → set_all s angles ≡ s
  silent s [] e = refl
  silent s ((pan, tilt) ∷ angles) e =
      ap (λ t. set_all t angles) (set_angles-silent s pan tilt e) ∙ silent s angles e

  release-ready : (s : ServoController R) → (release s).ready ≡ false
  unfolding release
  release-ready s = elim (Bool-cases s.ready) [ inl e ↦ rw e refl | inr e ↦ rw e refl ]

  release-writes :
      (s : ServoController R)
      → s.ready ≡ true
      → (release s).sysfs.writes
        ≡ s.sysfs.writes
          ++ ((chan_dir s s.pan_channel ++ codes "/enable", codes "0")
              ∷ (chan_dir s s.tilt_channel ++ codes "/enable", codes "0")
              ∷ [])
  unfolding release write_str chan_dir
  release-writes s e = rw e (append_assoc s.sysfs.writes _ _)

  -- Releasing ready servos disables the pan channel and the tilt channel, and from then on no
  -- angle reaches the PWM files.
  pub release-silent :
      (s : ServoController R) (angles : List (R × R))
      → s.ready ≡ true
      → (set_all (release s) angles).sysfs.writes
        ≡ s.sysfs.writes
          ++ ((chan_dir s s.pan_channel ++ codes "/enable", codes "0")
              ∷ (chan_dir s s.tilt_channel ++ codes "/enable", codes "0")
              ∷ [])
  release-silent s angles e =
      ap (λ t. t.sysfs.writes) (silent (release s) angles (release-ready s)) ∙ release-writes s e
