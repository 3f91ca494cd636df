-- ===== src/Session/Dispatch/Confined.antt =====
-- terminal/src/net/ClientSession.cpp and terminal/src/file/FileManager.cpp: what messages can do to
-- the disk.
use qt_s5p6818_face_tracking.Base.{
  ℕ, suc, ◌≡◌, refl, sym, subst, inl, inr, Bool, true, false, not, Bytes, Option, none, some, ◌==◌,
  ◌++◌, if_lem, ltb, length,
}
use qt_s5p6818_face_tracking.Auth.{hello_authorized}
use qt_s5p6818_face_tracking.Base.Text.{codes}
use qt_s5p6818_face_tracking.Core.Hub.{Frame, latest}
use qt_s5p6818_face_tracking.Files.{FileSystem, FileManager, join, remove, snapshot, snapshot_name}
use qt_s5p6818_face_tracking.Files.Names.{IsBasename, remove-confined}
use qt_s5p6818_face_tracking.Files.Stamps.{IsStamp, snapshot_name-IsBasename}
use qt_s5p6818_face_tracking.Protocol.{
  MsgType, hello, servo_cmd, mode_cmd, file_list_req, file_get_req, file_delete_req, snapshot_req,
  msg_type, type_code,
}
use qt_s5p6818_face_tracking.Session.{Session, send_json, send_file_list, send_file}
use qt_s5p6818_face_tracking.Json.{get_string}
use qt_s5p6818_face_tracking.Session.Dispatch.{
  Moment, Received, bytes, eof, failed, is_retry, max_message, refuse, read_and_dispatch,
  handle_type, handle_message, on_message, get_file, delete_file, save_frame, enqueue,
}
use qt_s5p6818_face_tracking.Stream.{waiting, ended}
use qt_s5p6818_face_tracking.Stream.Invariant.{state_of, drain_all-keeps}

-- The disks that two things lead to: unlinking basenames in the capture directory, and writing the
-- frame that the hub holds when a message is handled there, under a basename made of that time.
pub data Edits {D Image : Type 0} (fs : FileSystem D Image) (m : FileManager)
    (moments : ℕ → Moment Image) (d : D) : D → Type 0 where
  untouched : Edits fs m moments d d
  unlinked :
      (e : D) (name : Bytes)
      → IsBasename name
      → Edits fs m moments d e
      → Edits fs m moments d (fs.unlink e (join m.dir name)).0
  saved :
      (e : D) (k : ℕ) (f : Frame Image)
      → (moments k).hub ≡ some f
      → IsBasename (snapshot_name (moments k).base (moments k).now_ms)
      → Edits fs m moments d e
      → Edits fs m moments d
          (fs.imwrite e
            (join m.dir (snapshot_name (moments k).base (moments k).now_ms))
            f.mat
            m.jpeg_quality).0

module _ {D Image : Type 0} (fs : FileSystem D Image) (m : FileManager) (moments : ℕ → Moment Image)
    (d : D) where
  remove-Edits :
      (name : Bytes) (e : D) → Edits fs m moments d e → Edits fs m moments d (remove fs m name e).0
  remove-Edits name e h = elim (remove-confined fs m name e) [
    | inl q ↦ subst (λ r. Edits fs m moments d r.0) (sym q) h
    | inr (b, q) ↦ subst (λ r. Edits fs m moments d r.0) (sym q) (unlinked e name b h)
  ]

  snapshot-Edits :
      (k : ℕ) (f : Frame Image) (e : D)
      → (moments k).hub ≡ some f
      → IsStamp (moments k).base
      → Edits fs m moments d e
      → Edits fs m moments d (snapshot fs m (moments k).base (moments k).now_ms f.mat e).0
  unfolding snapshot
  snapshot-Edits k f e held stamp h =
      if_lem (λ (r : D × Option Bytes). Edits fs m moments d r.0) (fs.is_empty f.mat) (e, none) _
        (λ q. h) (λ q. saved e k f held (snapshot_name-IsBasename _ (moments k).now_ms stamp) h)

  -- The disk of a session is one that such edits lead to.
  abbrev pub IsEdited : {R : Type 0} → Session R D → Type 0
  IsEdited s = Edits fs m moments d s.disk

  send_file-IsEdited :
      {R : Type 0} (s : Session R D) (name : Bytes) → IsEdited s → IsEdited (send_file fs m s name)
  unfolding send_file
  send_file-IsEdited s name h = if_lem IsEdited (ltb 255 (length name)) s _ (λ q. h) (λ q. h)

  module _ {R : Type 0} (strtod : Bytes → Option R) (zero : R)
      (stamps : (k : ℕ) → IsStamp (moments k).base) where
    get_file-IsEdited :
        (s : Session R D) (name : Option Bytes)
        → IsEdited s
        → IsEdited (get_file fs m strtod zero moments s name)
    unfolding get_file
    get_file-IsEdited s none h = h
    get_file-IsEdited s (some name) h = send_file-IsEdited s name h

    delete_file-IsEdited :
        (s : Session R D) (name : Option Bytes)
        → IsEdited s
        → IsEdited (delete_file fs m strtod zero moments s name)
    unfolding delete_file send_json
    delete_file-IsEdited s none h = h
    delete_file-IsEdited s (some name) h = remove-Edits name s.disk h

    save_frame-IsEdited :
        (s : Session R D) (k : ℕ) (f : Option (Frame Image))
        → (moments k).hub ≡ f
        → IsEdited s
        → IsEdited (save_frame fs m strtod zero moments s (moments k).base (moments k).now_ms f)
    unfolding save_frame
    save_frame-IsEdited s k none held h = h
    save_frame-IsEdited s k (some f) held h =
        if_lem IsEdited (not (fs.is_empty f.mat)) _ s
          (λ q. snapshot-Edits k f s.disk held (stamps k) h) (λ q. h)

    handle_type-IsEdited :
        (s : Session R D) (k : ℕ) (t : Option MsgType) (body : Bytes)
        → IsEdited s
        → IsEdited (handle_type fs m strtod zero moments s (moments k) t body)
    unfolding handle_type enqueue send_file_list send_json latest
    handle_type-IsEdited s k none body h = h
    handle_type-IsEdited s k (some servo_cmd) body h = h
    handle_type-IsEdited s k (some mode_cmd) body h = h
    handle_type-IsEdited s k (some file_list_req) body h = h
    handle_type-IsEdited s k (some file_get_req) body h =
        get_file-IsEdited s (get_string body (codes "name")) h
    handle_type-IsEdited s k (some file_delete_req) body h =
        delete_file-IsEdited s (get_string body (codes "name")) h
    handle_type-IsEdited s k (some snapshot_req) body h =
        save_frame-IsEdited s k (moments k).hub refl h
    handle_type-IsEdited s k (some _) body h = h

    handle_message-IsEdited :
        (s : Session R D) (type : ℕ) (payload : Bytes)
        → IsEdited s
        → IsEdited (handle_message fs m strtod zero moments s type payload)
    unfolding handle_message
    handle_message-IsEdited s type payload h =
        handle_type-IsEdited (record s { handled = suc s.handled }) s.handled (msg_type type)
          payload h

    on_message-IsEdited :
        (s : Session R D) (type : ℕ) (payload : Bytes)
        → IsEdited s
        → IsEdited (on_message fs m strtod zero moments s type payload).0
    unfolding on_message
    on_message-IsEdited s type payload h =
        if_lem (λ (r : Session R D × Bool). IsEdited r.0) s.authed _ _
          (λ q. handle_message-IsEdited s type payload h)
          (λ q.
            if_lem (λ (r : Session R D × Bool). IsEdited r.0) (not (type == type_code hello))
              (s, false) _ (λ q. h)
              (λ q.
                if_lem (λ (r : Session R D × Bool). IsEdited r.0)
                  (not (hello_authorized s.auth_token payload)) (s, false) _ (λ q. h)
                  (λ q. handle_message-IsEdited (record s { authed = true }) type payload h)))

    pub read_and_dispatch-IsEdited :
        (s : Session R D) (rx : Bytes) (got : Received)
        → IsEdited s
        → IsEdited (state_of (read_and_dispatch fs m strtod zero moments s rx got))
    unfolding read_and_dispatch
    read_and_dispatch-IsEdited s rx (bytes got) h =
        drain_all-keeps max_message refuse (on_message fs m strtod zero moments) IsEdited
          (λ s why k. k) on_message-IsEdited s (rx ++ got) h
    read_and_dispatch-IsEdited s rx eof h = h
    read_and_dispatch-IsEdited s rx (failed e) h =
        if_lem (λ r. IsEdited (state_of r)) (is_retry e) (waiting s rx) (ended s) (λ q. h) (λ q. h)
