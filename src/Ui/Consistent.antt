-- ===== src/Ui/Consistent.antt =====
-- pc-client/src/ui: what the user can do follows the state of the connection.
use qt_s5p6818_face_tracking.Base.{
  ℕ, arith, ◌≡◌, refl, sym, ap, ◌∙◌, ◌-◌, Bool, true, false, not, ◌&&◌, List, [], ◌∷◌, Bytes,
  Option, none, some, leb, equal, ◌==◌, if_lem,
}
use qt_s5p6818_face_tracking.Client.{
  Client, Event, Qt, connected, error_occurred, video_frame_received, file_list_received,
  file_downloaded, file_deleted,
}
use qt_s5p6818_face_tracking.Core.Tracking.{Point2i, Recti}
use qt_s5p6818_face_tracking.Gimbal.{Doubles}
use qt_s5p6818_face_tracking.Ui.Browser.{
  FileBrowser, FileIntention, refresh_requested, snapshot_requested, download_requested,
  delete_requested, press,
}
use qt_s5p6818_face_tracking.Ui.Panel.{
  ControlPanel, Intention, connect_requested, disconnect_requested, home_requested, pan_tilt_step,
  mode_changed, on_connect_clicked, click, on_tls_toggled, toggle_tls, toggle_mode,
}
use qt_s5p6818_face_tracking.Ui.Window.{
  Window, Saving, Geometry, create_window, on_connected, on_disconnected, on_video_frame,
  on_file_downloaded, on_file_deleted, on_event, on_aim, aim_in, mouse_press, on_intention,
  on_file_intention,
}
use qt_s5p6818_face_tracking.Ui.Inputs.{
  Input, click_connect, toggle_tls_box, toggle_mode_box, click_button, press_video, press_file,
  select_file, event, disconnected, react, react_all,
}

-- The panel and the file list take the input that fits the connection: the TLS box, the host, the
-- port and the token while there is none, the rest while there is one.
abbrev pub Fits : {R : Type 0} → Bool → ControlPanel R → Bool → Type 0
Fits on p files =
    (p.tls_enabled ≡ not on)
    × ((p.cert_enabled ≡ (not on && p.tls))
        × ((p.host_enabled ≡ not on)
            × ((p.port_enabled ≡ not on)
                × ((p.token_enabled ≡ not on)
                    × ((p.connected ≡ on)
                        × ((p.gimbal_enabled ≡ on) × ((p.mode_enabled ≡ on) × (files ≡ on))))))))

abbrev pub IsConsistent : {R Image Cert : Type 0} → Window R Image Cert → Type 0
IsConsistent w = Fits w.is_connected w.controls w.files.enabled

on_tls_toggled-Fits :
    (R : Type 0) (on : Bool) (p : ControlPanel R) (files : Bool)
    → Fits on p files
    → not on ≡ true
    → Fits on (on_tls_toggled (record p { tls = not p.tls }) (not p.tls)) files
unfolding on_tls_toggled
on_tls_toggled-Fits R on p files h off =
    let t = not p.tls in
    let fits : Fits on (record p { tls = t; cert_enabled = t }) files =
      (h.0, (ap (λ b. b && t) (sym off), h.1.1)) in
    if_lem {A = ControlPanel R} (λ q. Fits on q files) (t && p.port == 8888) _ _ (λ e. fits)
      (λ e.
        if_lem {A = ControlPanel R} (λ q. Fits on q files) (not t && p.port == 8443) _ _ (λ f. fits)
          (λ f. fits))

toggle_tls-Fits :
    (R : Type 0) (on : Bool) (p : ControlPanel R) (files : Bool)
    → Fits on p files
    → Fits on (toggle_tls p) files
unfolding toggle_tls
toggle_tls-Fits R on p files h =
    if_lem {A = ControlPanel R} (λ q. Fits on q files) p.tls_enabled _ p
      (λ e. on_tls_toggled-Fits R on p files h (sym h.0 ∙ e)) (λ e. h)

module _ {R Image Cert : Type 0} (D : Doubles R) (qt : Qt R Image Cert) where
  -- What the window asks of the client leaves the widgets alone.
  on_intention-Fits :
      (w : Window R Image Cert) (wish : Option (Intention R))
      → IsConsistent w
      → IsConsistent (on_intention D qt w wish)
  unfolding on_intention
  on_intention-Fits w none h = h
  on_intention-Fits w (some (connect_requested host port token tls cert)) h = h
  on_intention-Fits w (some disconnect_requested) h = h
  on_intention-Fits w (some home_requested) h = h
  on_intention-Fits w (some (pan_tilt_step pan tilt)) h = h
  on_intention-Fits w (some (mode_changed on)) h = h

  on_file_intention-Fits :
      (w : Window R Image Cert) (wish : Option FileIntention)
      → IsConsistent w
      → IsConsistent (on_file_intention D qt w wish)
  unfolding on_file_intention
  on_file_intention-Fits w none h = h
  on_file_intention-Fits w (some refresh_requested) h = h
  on_file_intention-Fits w (some snapshot_requested) h = h
  on_file_intention-Fits w (some (download_requested name)) h = h
  on_file_intention-Fits w (some (delete_requested name)) h = h

  on_event-Fits :
      (w : Window R Image Cert) (now : ℕ) (s : Saving) (e : Event Image)
      → IsConsistent w
      → IsConsistent (on_event D w now s e)
  unfolding on_event on_connected on_video_frame on_file_downloaded on_file_deleted
  on_event-Fits w now s connected h =
      (refl, (refl, (refl, (refl, (refl, (refl, (refl, (refl, refl))))))))
  on_event-Fits w now s (error_occurred p) h = h
  on_event-Fits w now s (video_frame_received image seq width height ts_ms) h =
      if_lem {A = Window R Image Cert} IsConsistent (leb 1000 (now - w.fps_timer)) _ _ (λ e. h)
        (λ e. h)
  on_event-Fits w now s (file_list_received list) h = h
  on_event-Fits w now s (file_downloaded name bytes) h =
      if_lem {A = Window R Image Cert} IsConsistent (equal bytes []) _ _ (λ e. h)
        (λ e.
          if_lem {A = Window R Image Cert} IsConsistent (equal s.path []) w _ (λ f. h)
            (λ f.
              if_lem {A = Window R Image Cert} IsConsistent (not (s.opens && s.writes)) _ _ (λ i. h)
                (λ i. h)))
  on_event-Fits w now s (file_deleted name true) h = h
  on_event-Fits w now s (file_deleted name false) h = h

option_lem :
    {A B : Type 0} (P : B → Type 0) (o : Option A) {x : B} {f : A → B}
    → P x
    → ((a : A) → P (f a))
    → P (elim o [ none ↦ x | some a ↦ f a ])
option_lem P none p q = p
option_lem P (some a) p q = q a

-- All inputs but the button that connects and what the client reports.
abbrev pub is_command : {Image : Type 0} → Input Image → Bool
is_command click_connect = false
is_command (event now s e) = false
is_command i = true

module _ {R Image Cert : Type 0} (D : Doubles R) (qt : Qt R Image Cert) (g : Geometry Image)
    (trimmed : Bytes → Bytes) where
  abbrev go : Window R Image Cert → Input Image → Window R Image Cert
  go w i = react D qt g trimmed w i

  aim_in-Fits :
      (w : Window R Image Cert) (at : Point2i) (r : Recti)
      → IsConsistent w
      → IsConsistent (aim_in D qt g w at r)
  unfolding aim_in on_aim
  aim_in-Fits w at r h =
      if_lem {A = Window R Image Cert} IsConsistent (g.contains r at) _ w
        (λ e.
          if_lem {A = Window R Image Cert} IsConsistent (not w.is_connected) w _ (λ f. h) (λ f. h))
        (λ e. h)

  mouse_press-Fits :
      (w : Window R Image Cert) (at : Point2i)
      → IsConsistent w
      → IsConsistent (mouse_press D qt g w at)
  unfolding mouse_press
  mouse_press-Fits w at h =
      option_lem {B = Window R Image Cert} IsConsistent w.video h
        (λ image. aim_in-Fits w at (g.target_rect image) h)

  react-Fits : (w : Window R Image Cert) (i : Input Image) → IsConsistent w → IsConsistent (go w i)
  unfolding react toggle_mode on_disconnected
  react-Fits w click_connect h =
      on_intention-Fits D qt w (some (on_connect_clicked trimmed w.controls)) h
  react-Fits w toggle_tls_box h = toggle_tls-Fits R w.is_connected w.controls w.files.enabled h
  react-Fits w toggle_mode_box h =
      if_lem {A = ControlPanel R × Option (Intention R)}
        (λ r. IsConsistent (on_intention D qt (record w { controls = r.0 }) r.1))
        w.controls.mode_enabled _ _ (λ e. h) (λ e. h)
  react-Fits w (click_button b) h = on_intention-Fits D qt w (click D w.controls b) h
  react-Fits w (press_video at) h = mouse_press-Fits w at h
  react-Fits w (press_file b) h = on_file_intention-Fits D qt w (press w.files b) h
  react-Fits w (select_file name) h =
      if_lem {A = FileBrowser} (λ f. Fits w.is_connected w.controls f.enabled) w.files.enabled _
        w.files (λ e. h) (λ e. h)
  react-Fits w (event now s e) h = on_event-Fits D qt w now s e h
  react-Fits w disconnected h = (refl, (refl, (refl, (refl, (refl, (refl, (refl, (refl, refl))))))))

  -- A command that the widgets do not let through leaves the client alone.
  abbrev Quiet : Window R Image Cert → Window R Image Cert → Type 0
  Quiet w v = v.tcp ≡ w.tcp

  aim_in-Quiet :
      (w : Window R Image Cert) (at : Point2i) (r : Recti)
      → w.is_connected ≡ false
      → Quiet w (aim_in D qt g w at r)
  unfolding aim_in on_aim
  aim_in-Quiet w at r off =
      if_lem (Quiet w) (g.contains r at) _ w
        (λ e. if_lem (Quiet w) (not w.is_connected) w _ (λ f. refl) (λ f. absurd (ground arith)))
        (λ e. refl)

  react-Quiet :
      (w : Window R Image Cert) (i : Input Image)
      → IsConsistent w
      → w.is_connected ≡ false
      → is_command i ≡ true
      → Quiet w (go w i)
  unfolding react toggle_mode on_intention click press on_file_intention mouse_press on_disconnected
  react-Quiet w click_connect h off c = absurd (cc c)
  react-Quiet w (event now s e) h off c = absurd (cc c)
  react-Quiet w toggle_tls_box h off c = refl
  react-Quiet w (select_file name) h off c = refl
  react-Quiet w disconnected h off c = refl
  react-Quiet w toggle_mode_box h off c =
      if_lem {A = ControlPanel R × Option (Intention R)}
        (λ r. Quiet w (on_intention D qt (record w { controls = r.0 }) r.1)) w.controls.mode_enabled
        _ _ (λ e. absurd (ground arith)) (λ e. refl)
  react-Quiet w (click_button b) h off c =
      if_lem (λ o. Quiet w (on_intention D qt w o)) w.controls.gimbal_enabled _ none
        (λ e. absurd (ground arith)) (λ e. refl)
  react-Quiet w (press_video at) h off c =
      option_lem (Quiet w) w.video refl (λ image. aim_in-Quiet w at (g.target_rect image) off)
  react-Quiet w (press_file b) h off c =
      if_lem (λ o. Quiet w (on_file_intention D qt w o)) (not w.files.enabled) none _ (λ e. refl)
        (λ e. absurd (ground arith))

  react_all-Fits :
      (w : Window R Image Cert) (is : List (Input Image))
      → IsConsistent w
      → IsConsistent (react_all D qt g trimmed w is)
  react_all-Fits w [] h = h
  react_all-Fits w (i ∷ is) h = react_all-Fits (go w i) is (react-Fits w i h)

  -- After any inputs of the user and signals of the client, the gimbal, mode and file widgets
  -- take input exactly while the window is connected, and the connection form exactly while it is
  -- not; and while it is not, no input but the connect button makes the client do anything.
  pub window-IsConsistent :
      (tcp : Client Image Cert) (five : R) (is : List (Input Image)) (i : Input Image)
      → let w = react_all D qt g trimmed (create_window D tcp five) is in
        IsConsistent w
        × (w.is_connected ≡ false → is_command i ≡ true → (react D qt g trimmed w i).tcp ≡ w.tcp)
  unfolding create_window
  window-IsConsistent tcp five is i =
      let w = react_all D qt g trimmed (create_window D tcp five) is in
      let h =
        react_all-Fits (create_window D tcp five) is
          (refl, (refl, (refl, (refl, (refl, (refl, (refl, (refl, refl)))))))) in
      (h, λ off c. react-Quiet w i h off c)
