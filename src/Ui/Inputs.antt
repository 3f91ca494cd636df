-- ===== src/Ui/Inputs.antt =====
-- pc-client/src/ui/MainWindow.cpp: the wiring of the window, from what the user does and what the
-- client reports to the slots.
use qt_s5p6818_face_tracking.Base.{ℕ, List, [], ◌∷◌, Bytes, some, if◌then◌else◌}
use qt_s5p6818_face_tracking.Client.{Event, Qt}
use qt_s5p6818_face_tracking.Core.Tracking.{Point2i}
use qt_s5p6818_face_tracking.Gimbal.{Doubles}
use qt_s5p6818_face_tracking.Ui.Browser.{FileButton, press}
use qt_s5p6818_face_tracking.Ui.Panel.{Button, on_connect_clicked, click, toggle_tls, toggle_mode}
use qt_s5p6818_face_tracking.Ui.Window.{
  Window, Saving, Geometry, on_disconnected, on_event, mouse_press, on_intention, on_file_intention,
}

-- What the user does, and what the client reports; the last is the socket's disconnection.
pub data Input (Image : Type 0) : Type 0 where
  click_connect toggle_tls_box toggle_mode_box : Input Image
  click_button : Button → Input Image
  press_video : Point2i → Input Image
  press_file : FileButton → Input Image
  select_file : Bytes → Input Image
  event : ℕ → Saving → Event Image → Input Image
  disconnected : Input Image

module _ {R Image Cert : Type 0} (D : Doubles R) (qt : Qt R Image Cert) (g : Geometry Image)
    (trimmed : Bytes → Bytes) where
  unfoldable pub react : Window R Image Cert → Input Image → Window R Image Cert
  unfolding on_intention toggle_tls toggle_mode click mouse_press press on_file_intention on_event
      on_disconnected on_connect_clicked
  react w click_connect = on_intention D qt w (some (on_connect_clicked trimmed w.controls))
  react w toggle_tls_box = record w { controls = toggle_tls w.controls }
  react w toggle_mode_box =
      let (p, wish) = toggle_mode w.controls in on_intention D qt (record w { controls = p }) wish
  react w (click_button b) = on_intention D qt w (click D w.controls b)
  react w (press_video at) = mouse_press D qt g w at
  react w (press_file b) = on_file_intention D qt w (press w.files b)
  react w (select_file name) =
      let f = w.files in
      record w { files = if f.enabled then record f { current = some name } else f }
  react w (event now s e) = on_event D w now s e
  react w disconnected = on_disconnected D w

  abbrev pub react_all : Window R Image Cert → List (Input Image) → Window R Image Cert
  react_all w [] = w
  react_all w (i ∷ is) = react_all (react w i) is
