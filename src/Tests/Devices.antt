-- ===== src/Tests/Devices.antt =====
-- Runs of the screen, the camera, the servos and the whole program.
use qt_s5p6818_face_tracking.Base.{
  ℕ, zero, suc, ◌*◌, ◌≡◌, refl, inl, true, false, List, [], ◌∷◌, ◌++◌, Bytes, none, some, All,
  arith, replicate, length-replicate, length, get_or, map, ◌==◌, ltb, if◌then◌else◌,
}
use qt_s5p6818_face_tracking.Base.Text.{codes}
use qt_s5p6818_face_tracking.Camera.{
  Answer, Region, create, open_camera, close_camera, start_streaming,
}
use qt_s5p6818_face_tracking.Camera.Driver.{IsDriver}
use qt_s5p6818_face_tracking.Camera.Extents.{IsInside, extents, grab-mapped}
use qt_s5p6818_face_tracking.Camera.Closing.{close_camera-nothing_held}
use qt_s5p6818_face_tracking.Camera.Grab.{Decoder, grab, grabs}
use qt_s5p6818_face_tracking.Camera.Resources.{Holds, nothing_held, regions}
use qt_s5p6818_face_tracking.Core.Hub.{Frame}
use qt_s5p6818_face_tracking.Core.Tracking.{ℤ, pos}
use qt_s5p6818_face_tracking.Display.{Framebuffer, Pictures, Screen, fit, show_picture, open_screen}
use qt_s5p6818_face_tracking.Display
use qt_s5p6818_face_tracking.Display.Fit.{IsScreen, IsOpencv, IsDrawn, converted, show_picture_lem}
use qt_s5p6818_face_tracking.Display.Loop.{
  StatusBoard, Drawing, IsGeometry, IsReady, run_display, run_display_safe,
}
use qt_s5p6818_face_tracking.Gimbal.Servo.{
  ServoController, Longs, init, export_channel, stat, write_str, await, config_channel,
  set_channel_angle,
}
use qt_s5p6818_face_tracking.Gimbal.Startup.{IsExport, both_configs, init_lem}
use qt_s5p6818_face_tracking.Main.{Answers, main}
use qt_s5p6818_face_tracking.Main.Settings.{default_config}
use qt_s5p6818_face_tracking.Main.Shutdown.{IsGood, main_orderly}
use qt_s5p6818_face_tracking.Tests.Servos.{numbers}

-- A picture is its columns and rows; a factor lists the sizes that it is for.
abbrev Sizes : Type 0
Sizes = ℕ × ℕ

abbrev white : ℕ
white = 7

abbrev rows_of : ℕ → Sizes → List Bytes
rows_of b p = replicate p.1 (replicate (p.0 * b) white)

abbrev pictures : Pictures Sizes (List ℕ)
pictures = record {
  cols = λ p. p.0;
  rows = λ p. p.1;
  div = λ x c. x ∷ [];
  min = λ a b. a ++ b;
  resize = λ p f. (get_or f 0 0, get_or f 1 0);
  to_bgr565 = rows_of 2;
  to_bgra = rows_of 4;
}

rows_of-length :
    (b c n : ℕ) → All (λ row. length row ≡ c * b) (replicate n (replicate (c * b) white))
rows_of-length b c zero = tt
rows_of-length b c (suc n) = (length-replicate (c * b) white, rows_of-length b c n)

opencv : IsOpencv pictures
opencv = record {
  resize_fits = λ p x y. (omega arith, omega arith);
  length-to_bgr565 = λ p. length-replicate p.1 _;
  to_bgr565_rows = λ p. rows_of-length 2 p.0 p.1;
  length-to_bgra = λ p. length-replicate p.1 _;
  to_bgra_rows = λ p. rows_of-length 4 p.0 p.1;
}

abbrev black : Bytes
black = replicate 24 0

abbrev screen_on : Framebuffer
screen_on = record {
  fd = true;
  mem = some black;
  xres = 4;
  yres = 3;
  bpp = 16;
  line_length = 8;
  mem_len = 24;
  warned_fmt = false;
}

screen_on-IsScreen : IsScreen screen_on black 2
screen_on-IsScreen = record {
  is_mapped = refl;
  length-mem = refl;
  line_holds = omega arith;
  mem_holds = omega arith;
  mem_small = omega arith;
  wide = omega arith;
  high = omega arith;
}

show_picture_lem_example :
    (mem' : Bytes) × ((show_picture pictures screen_on (2, 1)
        ≡ some (record screen_on { mem = some mem' }))
      × IsDrawn pictures opencv screen_on black 2
          (fit pictures screen_on (2, 1))
          (converted pictures opencv screen_on black 2 (fit pictures screen_on (2, 1)))
          mem')
show_picture_lem_example =
    show_picture_lem pictures opencv screen_on black 2 (2, 1) screen_on-IsScreen refl (inl refl)
      (omega arith) (omega arith)

abbrev device : Screen
device = record {
  opens = true;
  has_var = true;
  has_fix = true;
  maps = true;
  xres = 4;
  yres = 3;
  bits_per_pixel = 16;
  line_length = 8;
  smem_len = 24;
}

device-IsGeometry : IsGeometry device 2
device-IsGeometry = record {
  depth = refl;
  line_holds = omega arith;
  mem_holds = omega arith;
  mem_small = omega arith;
  wide = omega arith;
  high = omega arith;
}

abbrev drawing : Drawing Sizes ℕ
drawing = record {
  print = λ k r. codes "0";
  print_int = λ i. codes "0";
  rectangle = λ p h. p;
  put_text = λ p line. p;
}

abbrev status : StatusBoard ℕ
status = record {
  pan_angle = 90;
  tilt_angle = 90;
  auto_track = true;
  capture_fps = 30;
  face_found = false;
  client_count = pos 0;
}

abbrev wide_frame : Frame Sizes
wide_frame = record { mat = (6, 2); jpeg = []; seq = 1; width = 6; height = 2; ts_ms = 1 }

run_display_safe_example :
    (fb' : Framebuffer) × ((run_display drawing pictures
          (open_screen Display.create device).0
          ((none, status) ∷ (some wide_frame, status) ∷ [])
        ≡ some fb')
      × IsReady drawing pictures opencv 2 (inl refl) fb')
run_display_safe_example =
    run_display_safe drawing pictures opencv 2 (inl refl) Display.create device
      ((none, status) ∷ (some wide_frame, status) ∷ []) (unfold open_screen in refl)
      device-IsGeometry

-- Calls that all work, the first of them after an interruption, on a driver with two buffers.
abbrev answers : ℕ → Answer
answers n = record {
  interruptions = if n == 1 then 1 else 0;
  works = true;
  has_capture = true;
  has_streaming = true;
  pixel_format = 0x56595559;
  width = 640;
  height = 480;
  count = 2;
  start = 1000000 * n;
  size = 700000;
  index = 1;
  bytes_used = 10;
}

abbrev decoder : Decoder Unit
decoder = record { is_empty = λ i. false; imdecode = λ s n. tt; from_yuyv = λ s h w. tt }

close_camera-nothing_held_example :
    let c = create 640 480 30 (record { log = []; asked = 0; gives = answers }) in
    let r = open_camera c in
    (r.1 ≡ true → (r.0.streaming ≡ true) × ((bs : List Region) × (r.0.buffers ≡ map some bs)))
    × Holds (close_camera (grabs decoder 3 r.0)).kernel nothing_held
close_camera-nothing_held_example = close_camera-nothing_held decoder 640 480 30 3 answers

answers-IsDriver : IsDriver 2 700000 answers
answers-IsDriver = record {
  counts = λ j. refl;
  sizes = λ j. omega arith;
  pictures = λ j e. omega arith;
  indices = λ j. omega arith;
  used = λ j. omega arith;
}

grab-mapped_example :
    let start = create 640 480 30 (record { log = []; asked = 0; gives = answers }) in
    let c = grabs decoder 1 (open_camera start).0 in
    IsInside c.buffers (grab extents c).1
    × Holds c.kernel (record { fd = c.fd; streams = c.streaming; maps = regions c.buffers })
grab-mapped_example =
    grab-mapped decoder 640 480 30 1 2 700000 answers answers-IsDriver
      (unfold create open_camera start_streaming in refl)

abbrev all_works : Answers
all_works = record {
  camera_opens = true;
  display_opens = true;
  servo_inits = true;
  cascade_loads = true;
  binds = λ w. true;
  with_tls = true;
  tls_loads = true;
}

abbrev decimal : ℤ → ℕ → ℕ
decimal m k = 0

main_orderly_example : IsGood (main (default_config decimal) all_works)
main_orderly_example = main_orderly (default_config decimal) all_works

abbrev longs : Longs ℕ
longs = record { print = λ i. codes "0"; add = λ a b. a; sub = λ a b. a; round_down = λ r. pos r }

abbrev servos : ServoController ℕ
servos = record {
  chip_path = codes "/pwm";
  pan_channel = 0;
  tilt_channel = 1;
  period_ns = pos 20000000;
  min_duty_ns = pos 1000000;
  max_duty_ns = pos 2000000;
  ready = false;
  sysfs = record { writes = []; writable = λ n. true; stats = 0; present = λ n. ltb 0 n };
}

servos_start : (init numbers longs servos).1 ≡ true
unfolding init export_channel stat write_str await config_channel set_channel_angle
servos_start = refl

init_lem_example :
    (ws : List (Bytes × Bytes)) × (All (IsExport servos) ws
      × (((init numbers longs servos).0.ready ≡ true)
          × ((init numbers longs servos).0.sysfs.writes
              ≡ [] ++ (ws ++ both_configs numbers longs servos))))
init_lem_example = init_lem numbers longs servos servos_start
