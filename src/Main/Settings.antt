-- ===== src/Main/Settings.antt =====
-- terminal/src/core/Config.h: the settings, and what main.cpp and app/Hardware.h make of them. The
-- double literals are a parameter: `decimal m k` is m / 10 ^ k.
use qt_s5p6818_face_tracking.Base.{ℕ, Bool, true, false, Bytes, []}
use qt_s5p6818_face_tracking.Base.Text.{codes}
use qt_s5p6818_face_tracking.Camera.{Camera, Kernel, create}
use qt_s5p6818_face_tracking.Core.Tracking.{ℤ, pos, negsuc}
use qt_s5p6818_face_tracking.Gimbal.{TrackerParams}
use qt_s5p6818_face_tracking.Gimbal.Servo.{ServoController, Sysfs}

pub record Config (R : Type 0) : Type 0 where
  pub camera_device : Bytes
  pub capture_width : ℕ
  pub capture_height : ℕ
  pub capture_fps : ℕ
  pub fb_device : Bytes
  pub cascade_path : Bytes
  pub detect_scale : R
  pub haar_scale_factor : R
  pub haar_min_neighbors : ℕ
  pub haar_min_face_px : ℕ
  pub pwm_chip_path : Bytes
  pub pan_channel : ℕ
  pub tilt_channel : ℕ
  pub pwm_period_ns : ℤ
  pub servo_min_duty_ns : ℤ
  pub servo_max_duty_ns : ℤ
  pub pan_min_angle : R
  pub pan_max_angle : R
  pub pan_home : R
  pub tilt_min_angle : R
  pub tilt_max_angle : R
  pub tilt_home : R
  pub track_deadzone_px : ℤ
  pub track_gain_pan : R
  pub track_gain_tilt : R
  pub track_max_step_deg : R
  pub manual_override_ms : ℕ
  pub servo_update_ms : ℕ
  pub pan_sign : R
  pub tilt_sign : R
  pub tcp_port : ℕ
  pub ws_enabled : Bool
  pub ws_port : ℕ
  pub stream_fps : ℕ
  pub jpeg_quality : ℕ
  pub max_clients : ℕ
  pub auth_token : Bytes
  pub tls_cert_file : Bytes
  pub tls_key_file : Bytes
  pub tls_tcp_port : ℕ
  pub tls_ws_port : ℕ
  pub capture_dir : Bytes
  pub auto_snapshot_on_face : Bool
  pub auto_snapshot_min_interval_ms : ℕ

module _ {R : Type 0} where
  -- The defaults of the struct.
  unfoldable pub default_config : (ℤ → ℕ → R) → Config R
  default_config decimal = record {
    camera_device = codes "/dev/video0";
    capture_width = 640;
    capture_height = 480;
    capture_fps = 30;
    fb_device = codes "/dev/fb0";
    cascade_path = codes "models/haarcascade_frontalface_default.xml";
    detect_scale = decimal (pos 5) 1;
    haar_scale_factor = decimal (pos 12) 1;
    haar_min_neighbors = 4;
    haar_min_face_px = 60;
    pwm_chip_path = codes "/sys/class/pwm/pwmchip0";
    pan_channel = 0;
    tilt_channel = 1;
    pwm_period_ns = pos 20000000;
    servo_min_duty_ns = pos 1000000;
    servo_max_duty_ns = pos 2000000;
    pan_min_angle = decimal (pos 100) 1;
    pan_max_angle = decimal (pos 1700) 1;
    pan_home = decimal (pos 900) 1;
    tilt_min_angle = decimal (pos 400) 1;
    tilt_max_angle = decimal (pos 1400) 1;
    tilt_home = decimal (pos 900) 1;
    track_deadzone_px = pos 30;
    track_gain_pan = decimal (pos 3) 2;
    track_gain_tilt = decimal (pos 3) 2;
    track_max_step_deg = decimal (pos 40) 1;
    manual_override_ms = 4000;
    servo_update_ms = 20;
    pan_sign = decimal (pos 10) 1;
    tilt_sign = decimal (negsuc 9) 1;
    tcp_port = 8888;
    ws_enabled = true;
    ws_port = 8889;
    stream_fps = 15;
    jpeg_quality = 70;
    max_clients = 8;
    auth_token = [];
    tls_cert_file = [];
    tls_key_file = [];
    tls_tcp_port = 8443;
    tls_ws_port = 8444;
    capture_dir = codes "captures";
    auto_snapshot_on_face = false;
    auto_snapshot_min_interval_ms = 5000;
  }

  -- `TrackerParams tp{...}`
  unfoldable pub tracker_params : Config R → TrackerParams R
  tracker_params cfg = record {
    pan_min = cfg.pan_min_angle;
    pan_max = cfg.pan_max_angle;
    pan_home = cfg.pan_home;
    tilt_min = cfg.tilt_min_angle;
    tilt_max = cfg.tilt_max_angle;
    tilt_home = cfg.tilt_home;
    deadzone_px = cfg.track_deadzone_px;
    gain_pan = cfg.track_gain_pan;
    gain_tilt = cfg.track_gain_tilt;
    max_step_deg = cfg.track_max_step_deg;
    pan_sign = cfg.pan_sign;
    tilt_sign = cfg.tilt_sign;
  }

  -- The board's drivers.
  unfoldable pub make_camera : Config R → Kernel → Camera
  unfolding create
  make_camera cfg kernel = create cfg.capture_width cfg.capture_height cfg.capture_fps kernel

  unfoldable pub make_servo : Config R → Sysfs → ServoController R
  make_servo cfg sysfs = record {
    chip_path = cfg.pwm_chip_path;
    pan_channel = cfg.pan_channel;
    tilt_channel = cfg.tilt_channel;
    period_ns = cfg.pwm_period_ns;
    min_duty_ns = cfg.servo_min_duty_ns;
    max_duty_ns = cfg.servo_max_duty_ns;
    ready = false;
    sysfs = sysfs;
  }
