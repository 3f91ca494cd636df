-- ===== src/Ui/Window.antt =====
-- pc-client/src/ui/MainWindow.cpp and VideoWidget.cpp: the window around the client of
-- pc-client/src/net/TcpClient.cpp. The client's signals and what the user does are its inputs. The
-- geometry of Qt, the choice of a file to save to, and writing it, are arguments.
use qt_s5p6818_face_tracking.Base.{
  ℕ, suc, ◌-◌, Bool, true, false, not, ◌&&◌, List, [], ◌∷◌, ◌++◌, Bytes, Option, none, some, length,
  leb, ◌==◌, equal, if◌then◌else◌,
}
use qt_s5p6818_face_tracking.Base.Text.{codes, to_string}
use qt_s5p6818_face_tracking.Client.{
  Client, Event, Problem, Qt, connected, error_occurred, video_frame_received, file_list_received,
  file_downloaded, file_deleted, connect_to_terminal, disconnect_from_terminal, request_file_list,
  request_snapshot, request_file, delete_file, send_servo_step, send_servo_abs, send_mode,
}
use qt_s5p6818_face_tracking.Core.Tracking.{ℤ, pos, Point2i, Recti}
use qt_s5p6818_face_tracking.Gimbal.{Doubles}
use qt_s5p6818_face_tracking.Ui.Browser.{
  FileBrowser, FileIntention, refresh_requested, snapshot_requested, download_requested,
  delete_requested, create_browser, set_enabled, set_files,
}
use qt_s5p6818_face_tracking.Ui.Panel.{
  ControlPanel, Intention, connect_requested, disconnect_requested, home_requested, pan_tilt_step,
  mode_changed, create_panel, set_connected,
}

-- The texts of the status bar's labels.
pub data ConnText : Type 0 where
  not_connected : ConnText
  connecting_to : Bytes → Bool → ConnText
  connected_to : Bytes → ConnText

-- What the window tells the user.
pub data Notice : Type 0 where
  problem : Problem → Notice
  empty_file save_failed cannot_delete deleted : Bytes → Notice
  saved : Bytes → ℕ → Notice

-- `resolution` and `rate` are `none` for a dash. The milliseconds of `fps_timer` are its start.
pub record Window (R Image Cert : Type 0) : Type 0 where
  pub tcp : Client Image Cert
  pub controls : ControlPanel R
  pub files : FileBrowser
  pub video : Option Image
  pub is_connected : Bool
  pub peer : Bytes
  pub fps_timer : ℕ
  pub frame_count : ℕ
  pub fps : R
  pub last_w : ℕ
  pub last_h : ℕ
  pub conn_label : ConnText
  pub resolution : Option (ℕ × ℕ)
  pub rate : Option R
  pub notices : List Notice

-- The answer of the file dialog, and what opening and writing the file give.
pub record Saving : Type 0 where
  pub path : Bytes
  pub opens : Bool
  pub writes : Bool

-- QRect's operations, and where a picture is drawn.
pub record Geometry (Image : Type 0) : Type 0 where
  pub target_rect : Image → Recti
  pub contains : Recti → Point2i → Bool
  pub center : Recti → Point2i
  pub minus : ℤ → ℤ → ℤ

module _ {R Image Cert : Type 0} (D : Doubles R) where
  unfoldable pub update_status : Window R Image Cert → Window R Image Cert
  update_status w = record w {
    conn_label = if w.is_connected then connected_to w.peer else not_connected;
    resolution =
        if not (w.last_w == 0) && not (w.last_h == 0) then some (w.last_w, w.last_h) else none;
    rate = if w.is_connected && D.lt (D.of_int (pos 0)) w.fps then some w.fps else none;
  }

  unfoldable pub set_connected_ui : Window R Image Cert → Bool → Window R Image Cert
  unfolding set_connected set_enabled
  set_connected_ui w on =
      let v = record w { controls = set_connected w.controls on; files = set_enabled w.files on } in
      if not on
      then record v { video = none; last_w = 0; last_h = 0; fps = D.of_int (pos 0) }
      else v

  -- The constructor, around a new client; `five` is 5.0.
  unfoldable pub create_window : Client Image Cert → R → Window R Image Cert
  unfolding set_connected_ui update_status create_panel create_browser
  create_window tcp five = update_status (
      set_connected_ui
        (record {
          tcp = tcp;
          controls = create_panel five;
          files = create_browser;
          video = none;
          is_connected = false;
          peer = [];
          fps_timer = 0;
          frame_count = 0;
          fps = D.of_int (pos 0);
          last_w = 0;
          last_h = 0;
          conn_label = not_connected;
          resolution = none;
          rate = none;
          notices = [];
        })
        false)

  abbrev notify : Window R Image Cert → Notice → Window R Image Cert
  notify w n = record w { notices = w.notices ++ n ∷ [] }

  -- `now` is the clock of the timer.
  unfoldable pub on_connected : Window R Image Cert → ℕ → Window R Image Cert
  unfolding set_connected_ui update_status request_file_list
  on_connected w now =
      let v = set_connected_ui (record w { is_connected = true }) true in
      update_status (record v {
        frame_count = 0;
        fps = D.of_int (pos 0);
        fps_timer = now;
        tcp = request_file_list v.tcp;
      })

  unfoldable pub on_disconnected : Window R Image Cert → Window R Image Cert
  unfolding set_connected_ui update_status
  on_disconnected w = update_status (set_connected_ui (record w { is_connected = false }) false)

  unfoldable pub count_frame : Window R Image Cert → ℕ → Window R Image Cert
  count_frame w now =
      let n = suc w.frame_count in
      let ms = now - w.fps_timer in
      if leb 1000 ms
      then record w {
        frame_count = 0;
        fps = D.div (D.mul (D.of_int (pos n)) (D.of_int (pos 1000))) (D.of_int (pos ms));
        fps_timer = now;
      }
      else record w { frame_count = n }

  unfoldable pub on_video_frame : Window R Image Cert → ℕ → Image → ℕ → ℕ → Window R Image Cert
  unfolding count_frame update_status
  on_video_frame w now image width height =
      update_status
        (count_frame (record w { video = some image; last_w = width; last_h = height }) now)

  unfoldable pub on_file_downloaded :
      Window R Image Cert → Saving → Bytes → Bytes → Window R Image Cert
  unfolding equal
  on_file_downloaded w s name bytes =
      if equal bytes []
      then notify w (empty_file name)
      else if equal s.path []
      then w
      else if not (s.opens && s.writes)
      then notify w (save_failed s.path)
      else notify w (saved name (length bytes))

  unfoldable pub on_file_deleted : Window R Image Cert → Bytes → Bool → Window R Image Cert
  unfolding request_file_list
  on_file_deleted w name done =
      if done
      then (let v = notify w (deleted name) in record v { tcp = request_file_list v.tcp })
      else notify w (cannot_delete name)

  -- The slots that the client's signals are connected to.
  unfoldable pub on_event : Window R Image Cert → ℕ → Saving → Event Image → Window R Image Cert
  unfolding on_connected on_video_frame on_file_downloaded on_file_deleted set_files
  on_event w now s connected = on_connected w now
  on_event w now s (error_occurred p) = notify w (problem p)
  on_event w now s (video_frame_received image seq width height ts_ms) =
      on_video_frame w now image width height
  on_event w now s (file_list_received list) = record w { files = set_files w.files list }
  on_event w now s (file_downloaded name bytes) = on_file_downloaded w s name bytes
  on_event w now s (file_deleted name done) = on_file_deleted w name done

module _ {R Image Cert : Type 0} (D : Doubles R) (qt : Qt R Image Cert) where
  -- `kAimMaxDeg` is 12.0.
  unfoldable pub on_aim : Window R Image Cert → R → R → Window R Image Cert
  unfolding send_servo_step
  on_aim w dx dy =
      let max_deg = D.of_int (pos 12) in
      if not w.is_connected
      then w
      else record w { tcp = send_servo_step qt w.tcp (D.mul dx max_deg) (D.mul (D.neg dy) max_deg) }

  unfoldable pub aim_in :
      Geometry Image → Window R Image Cert → Point2i → Recti → Window R Image Cert
  unfolding on_aim
  aim_in g w at r =
      let half = λ (n : ℤ). D.div (D.of_int n) (D.of_int (pos 2)) in
      if g.contains r at
      then on_aim w (D.div (D.of_int (g.minus at.x (g.center r).x)) (half r.w))
          (D.div (D.of_int (g.minus at.y (g.center r).y)) (half r.h))
      else w

  -- A click on the video; without a picture its rectangle is null.
  unfoldable pub mouse_press : Geometry Image → Window R Image Cert → Point2i → Window R Image Cert
  unfolding aim_in
  mouse_press g w at = elim w.video [ none ↦ w | some image ↦ aim_in g w at (g.target_rect image) ]

  -- The slots of the panel's signals; 90.0 is the home of both axes.
  unfoldable pub on_intention : Window R Image Cert → Option (Intention R) → Window R Image Cert
  unfolding connect_to_terminal disconnect_from_terminal send_servo_step send_servo_abs send_mode
  on_intention w none = w
  on_intention w (some (connect_requested host port token tls cert_path)) =
      let peer = host ++ (codes ":" ++ to_string port) in
      record w {
        peer = peer;
        conn_label = connecting_to peer tls;
        tcp = connect_to_terminal qt w.tcp host port token tls cert_path;
      }
  on_intention w (some disconnect_requested) = record w { tcp = disconnect_from_terminal w.tcp }
  on_intention w (some home_requested) = record w {
    tcp = send_servo_abs qt w.tcp (D.of_int (pos 90)) (D.of_int (pos 90));
  }
  on_intention w (some (pan_tilt_step pan tilt)) = record w {
    tcp = send_servo_step qt w.tcp pan tilt;
  }
  on_intention w (some (mode_changed on)) = record w { tcp = send_mode qt w.tcp on }

  unfoldable pub on_file_intention :
      Window R Image Cert → Option FileIntention → Window R Image Cert
  unfolding request_file_list request_snapshot request_file delete_file
  on_file_intention w none = w
  on_file_intention w (some refresh_requested) = record w { tcp = request_file_list w.tcp }
  on_file_intention w (some snapshot_requested) = record w { tcp = request_snapshot w.tcp }
  on_file_intention w (some (download_requested name)) = record w {
    tcp = request_file qt w.tcp name;
  }
  on_file_intention w (some (delete_requested name)) = record w { tcp = delete_file qt w.tcp name }
