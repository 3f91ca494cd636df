-- ===== src/Ui/Panel.antt =====
-- pc-client/src/ui/ControlPanel.cpp: the connection form, the buttons of the gimbal and the mode.
use qt_s5p6818_face_tracking.Base.{
  ℕ, Bool, true, false, not, ◌&&◌, Bytes, [], Option, none, some, ◌==◌, ◌%◌, ◌^◌, if◌then◌else◌,
}
use qt_s5p6818_face_tracking.Base.Text.{codes}
use qt_s5p6818_face_tracking.Core.Tracking.{pos}
use qt_s5p6818_face_tracking.Gimbal.{Doubles}

-- What the widgets hold, and which take input; the group boxes stand for the buttons in them.
pub record ControlPanel (R : Type 0) : Type 0 where
  pub connected : Bool
  pub host : Bytes
  pub port : ℕ
  pub token : Bytes
  pub tls : Bool
  pub cert_path : Bytes
  pub step : R
  pub auto_track : Bool
  pub host_enabled : Bool
  pub port_enabled : Bool
  pub token_enabled : Bool
  pub tls_enabled : Bool
  pub cert_enabled : Bool
  pub gimbal_enabled : Bool
  pub mode_enabled : Bool

-- The signals of the panel; `none` of them is no signal.
pub data Intention (R : Type 0) : Type 0 where
  connect_requested : Bytes → ℕ → Bytes → Bool → Bytes → Intention R
  disconnect_requested home_requested : Intention R
  pan_tilt_step : R → R → Intention R
  mode_changed : Bool → Intention R

pub data Button : Type 0 where
  up down left right home : Button

unfoldable pub set_connected : {R : Type 0} → ControlPanel R → Bool → ControlPanel R
set_connected p on = record p {
  connected = on;
  host_enabled = not on;
  port_enabled = not on;
  token_enabled = not on;
  tls_enabled = not on;
  cert_enabled = not on && p.tls;
  gimbal_enabled = on;
  mode_enabled = on;
}

-- The constructor; `step` is 5.0.
unfoldable pub create_panel : {R : Type 0} → R → ControlPanel R
unfolding set_connected
create_panel step =
    set_connected
      (record {
        connected = false;
        host = codes "127.0.0.1";
        port = 8888;
        token = [];
        tls = false;
        cert_path = [];
        step = step;
        auto_track = true;
        host_enabled = true;
        port_enabled = true;
        token_enabled = true;
        tls_enabled = true;
        cert_enabled = false;
        gimbal_enabled = true;
        mode_enabled = true;
      })
      false

-- `trimmed` is QString's.
unfoldable pub on_connect_clicked : {R : Type 0} → (Bytes → Bytes) → ControlPanel R → Intention R
on_connect_clicked trimmed p =
    if p.connected
    then disconnect_requested
    else connect_requested (trimmed p.host) (p.port % 2 ^ 16) p.token p.tls (trimmed p.cert_path)

unfoldable pub step_of : {R : Type 0} → Doubles R → ControlPanel R → Button → Intention R
step_of D p up = pan_tilt_step (D.of_int (pos 0)) p.step
step_of D p down = pan_tilt_step (D.of_int (pos 0)) (D.neg p.step)
step_of D p left = pan_tilt_step (D.neg p.step) (D.of_int (pos 0))
step_of D p right = pan_tilt_step p.step (D.of_int (pos 0))
step_of D p home = home_requested

-- A click on one of the gimbal's buttons.
unfoldable pub click : {R : Type 0} → Doubles R → ControlPanel R → Button → Option (Intention R)
unfolding step_of
click D p b = if p.gimbal_enabled then some (step_of D p b) else none

-- The slot of the TLS box: it hops between the default ports.
unfoldable pub on_tls_toggled : {R : Type 0} → ControlPanel R → Bool → ControlPanel R
on_tls_toggled p on =
    let q = record p { cert_enabled = on } in
    if on && p.port == 8888
    then record q { port = 8443 }
    else if not on && p.port == 8443
    then record q { port = 8888 }
    else q

-- The user toggles the TLS box.
unfoldable pub toggle_tls : {R : Type 0} → ControlPanel R → ControlPanel R
unfolding on_tls_toggled
toggle_tls p =
    if p.tls_enabled then on_tls_toggled (record p { tls = not p.tls }) (not p.tls) else p

-- The user toggles the mode.
unfoldable pub toggle_mode : {R : Type 0} → ControlPanel R → ControlPanel R × Option (Intention R)
toggle_mode p =
    if p.mode_enabled
    then (record p { auto_track = not p.auto_track }, some (mode_changed (not p.auto_track)))
    else (p, none)
