-- ===== src/Tests/Servos.antt =====
-- Runs of the gimbal's control loop, on natural numbers in place of doubles.
use qt_s5p6818_face_tracking.Base.{
  ℕ, ◌+◌, ◌-◌, ◌*◌, ◌/◌, ◌≡◌, refl, Bool, true, false, List, [], ◌∷◌, ◌++◌, Option, none, some, ltb,
  ge→ltb, arith, All, replicate,
}
use qt_s5p6818_face_tracking.Base.Text.{codes}
use qt_s5p6818_face_tracking.Core.Commands.{Command, servo_step, set_mode}
use qt_s5p6818_face_tracking.Core.Tracking.{ℤ, pos, negsuc, Snapshot}
use qt_s5p6818_face_tracking.Gimbal.{Doubles, TrackerParams, create}
use qt_s5p6818_face_tracking.Gimbal.Control.{Control, Round, start, rounds, apply_all}
use qt_s5p6818_face_tracking.Gimbal.Limits.{IsInLimits, IsSane, servo-IsInLimits}
use qt_s5p6818_face_tracking.Gimbal.Nan.{IsNan, rounds-nan}
use qt_s5p6818_face_tracking.Gimbal.Override.{aim, manual-held}
use qt_s5p6818_face_tracking.Gimbal.Servo.{
  ServoController, Longs, chan_dir, release, set_all, release-silent,
}

abbrev magnitude : ℤ → ℕ
magnitude (pos n) = n
magnitude (negsuc n) = 0

abbrev pub numbers : Doubles ℕ
numbers = record {
  lt = ltb;
  add = λ a b. a + b;
  sub = λ a b. a - b;
  mul = λ a b. a * b;
  div = λ a b. a / b;
  neg = λ a. 0;
  abs = λ a. a;
  of_int = magnitude;
}

abbrev pub limits : TrackerParams ℕ
limits = record {
  pan_min = 10;
  pan_max = 170;
  pan_home = 90;
  tilt_min = 40;
  tilt_max = 140;
  tilt_home = 90;
  deadzone_px = pos 30;
  gain_pan = 1;
  gain_tilt = 1;
  max_step_deg = 4;
  pan_sign = 1;
  tilt_sign = 1;
}

abbrev pub face : Snapshot
face = record {
  found = true;
  box = record { x = pos 500; y = pos 100; w = pos 20; h = pos 20 };
  center = record { x = pos 510; y = pos 110 };
  frame_w = pos 640;
  frame_h = pos 480;
}

abbrev turn : Command ℕ
turn = record { type = servo_step; pan = 300; tilt = 5; auto_track = true }

abbrev manual_mode : Command ℕ
manual_mode = record { type = set_mode; pan = 0; tilt = 0; auto_track = false }

abbrev turning : Round ℕ
turning = record { commands = (turn, 100) ∷ []; now = 101; track = face }

abbrev quiet : Round ℕ
quiet = record { commands = []; now = 200; track = face }

abbrev pub home_state : Control ℕ
home_state = record {
  tracker = record { pan = 90; tilt = 90 };
  auto_enabled = true;
  manual_until = 0;
  servo = [];
  auto_track = true;
  pan_angle = 90;
  tilt_angle = 90;
}

sane : IsSane numbers limits
sane = record { pan_order = refl; tilt_order = refl; home = ((refl, refl), (refl, refl)) }

servo-IsInLimits_example :
    All
      (IsInLimits numbers limits)
      (rounds numbers limits 4000
        (start numbers limits 4000 (create limits))
        (turning ∷ quiet ∷ [])).servo
servo-IsInLimits_example =
    servo-IsInLimits numbers limits (λ x. ge→ltb x x (omega arith)) sane 4000 (turning ∷ quiet ∷ [])

manual-held_example :
    (rounds numbers limits 4000 home_state (turning ∷ quiet ∷ [])).servo
    ≡ [] ++ replicate 2 (aim (apply_all numbers limits 4000 home_state ((turn, 100) ∷ [])))
manual-held_example =
    manual-held numbers limits 4000 home_state [] turn 100 101 face (quiet ∷ []) (λ e. cc)
      (omega arith) (omega arith) ((refl, omega arith), tt)

-- Numbers with a NaN, which is `none`.
abbrev lt_nan : Option ℕ → Option ℕ → Bool
lt_nan none b = false
lt_nan (some a) none = false
lt_nan (some a) (some b) = ltb a b

abbrev with_nan : (ℕ → ℕ → ℕ) → Option ℕ → Option ℕ → Option ℕ
with_nan f none b = none
with_nan f (some a) none = none
with_nan f (some a) (some b) = some (f a b)

abbrev numbers_nan : Doubles (Option ℕ)
numbers_nan = record {
  lt = lt_nan;
  add = with_nan (λ a b. a + b);
  sub = with_nan (λ a b. a - b);
  mul = with_nan (λ a b. a * b);
  div = with_nan (λ a b. a / b);
  neg = λ a. a;
  abs = λ a. a;
  of_int = λ i. some (magnitude i);
}

abbrev limits_nan : TrackerParams (Option ℕ)
limits_nan = record {
  pan_min = some 10;
  pan_max = some 170;
  pan_home = some 90;
  tilt_min = some 40;
  tilt_max = some 140;
  tilt_home = some 90;
  deadzone_px = pos 30;
  gain_pan = some 1;
  gain_tilt = some 1;
  max_step_deg = some 4;
  pan_sign = some 1;
  tilt_sign = some 1;
}

not_above_nan : (x : Option ℕ) → lt_nan x none ≡ false
not_above_nan none = refl
not_above_nan (some a) = refl

none-IsNan : IsNan numbers_nan none
none-IsNan = record { not_below = λ x. refl; not_above = not_above_nan; sum = λ x. refl }

abbrev lost : Control (Option ℕ)
lost = record {
  tracker = record { pan = none; tilt = some 90 };
  auto_enabled = true;
  manual_until = 0;
  servo = [];
  auto_track = true;
  pan_angle = none;
  tilt_angle = some 90;
}

abbrev step_right : Command (Option ℕ)
step_right = record { type = servo_step; pan = some 3; tilt = some 5; auto_track = true }

abbrev nan_rounds : List (Round (Option ℕ))
nan_rounds =
    record { commands = (step_right, 100) ∷ []; now = 101; track = face }
    ∷ record { commands = []; now = 9000; track = face }
    ∷ []

rounds-nan_example : (rounds numbers_nan limits_nan 4000 lost nan_rounds).tracker.pan ≡ none
rounds-nan_example =
    rounds-nan numbers_nan limits_nan 4000 none none-IsNan lost nan_rounds refl
      (((λ e. cc), tt), (tt, tt))

abbrev longs : Longs ℕ
longs = record { print = λ i. codes "1"; add = λ a b. a; sub = λ a b. a; round_down = pos }

abbrev servos : ServoController ℕ
servos = record {
  chip_path = codes "/c";
  pan_channel = 0;
  tilt_channel = 1;
  period_ns = pos 20000000;
  min_duty_ns = pos 1000000;
  max_duty_ns = pos 2000000;
  ready = true;
  sysfs = record { writes = []; writable = λ n. true; stats = 4; present = λ n. true };
}

release-silent_example :
    (set_all numbers longs (release servos) ((10, 20) ∷ [])).sysfs.writes
    ≡ []
      ++ ((chan_dir servos 0 ++ codes "/enable", codes "0")
          ∷ (chan_dir servos 1 ++ codes "/enable", codes "0")
          ∷ [])
release-silent_example = release-silent numbers longs servos ((10, 20) ∷ []) refl
