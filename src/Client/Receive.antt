-- ===== src/Client/Receive.antt =====
-- pc-client/src/net/TcpClient.cpp: `onReadyRead`, `processBuffer` and the handlers of what the
-- terminal sends.
use qt_s5p6818_face_tracking.Base.{
  ℕ, ◌+◌, ◌%◌, ◌^◌, Bool, true, List, [], ◌∷◌, ◌++◌, Bytes, Option, none, some, length, get_or,
  take, drop, ltb, leb, ◌==◌, if◌then◌else◌, equal,
}
use qt_s5p6818_face_tracking.Base.Text.{codes}
use qt_s5p6818_face_tracking.Client.{
  Qt, JsonObject, RemoteFile, error_occurred, video_frame_received, file_list_received,
  file_downloaded, file_deleted, bad_magic_seen, oversize_seen, Download, Client, emit,
  abort_socket,
}
use qt_s5p6818_face_tracking.Protocol.{
  MsgType, video_frame, file_list_resp, file_data, file_delete_resp, msg_type, get_u32, get_u64,
  video_subheader_size,
}
use qt_s5p6818_face_tracking.Stream.{
  Refusal, bad_magic, oversize, Drained, ended, waiting, drain_all,
}

abbrev pub max_message_bytes : ℕ
max_message_bytes = 67108864

-- The downloads in progress, by name.
unfoldable pub lookup : Bytes → List (Bytes × Download) → Option Download
unfolding equal
lookup k [] = none
lookup k ((j, d) ∷ ds) = if equal j k then some d else lookup k ds

unfoldable pub erase : Bytes → List (Bytes × Download) → List (Bytes × Download)
unfolding equal
erase k [] = []
erase k ((j, d) ∷ ds) = if equal j k then erase k ds else (j, d) ∷ erase k ds

unfoldable pub store : Bytes → Download → List (Bytes × Download) → List (Bytes × Download)
unfolding equal
store k d [] = (k, d) ∷ []
store k d ((j, e) ∷ ds) = if equal j k then (k, d) ∷ ds else (j, e) ∷ store k d ds

-- `downloads_[name]` makes an empty entry where there is none.
unfoldable pub entry : Option Download → Download
entry none = record { total = 0; received = 0; bytes = [] }
entry (some d) = d

-- One chunk of a download whose announced total is not 0.
unfoldable pub extend : Download → ℕ → Bytes → Download
extend d total bytes = record {
  total = if d.total == 0 then total else d.total;
  received = (d.received + 1) % 2 ^ 32;
  bytes = d.bytes ++ bytes;
}

module _ {Image Cert : Type 0} where
  unfoldable pub store_chunk : Client Image Cert → Bytes → Download → Client Image Cert
  store_chunk c name d =
      if leb d.total d.received
      then record (emit c (file_downloaded name d.bytes)) { downloads = erase name c.downloads }
      else record c { downloads = store name d c.downloads }

  unfoldable pub add_chunk : Client Image Cert → Bytes → ℕ → Bytes → Client Image Cert
  add_chunk c name total bytes =
      if total == 0
      then record (emit c (file_downloaded name [])) { downloads = erase name c.downloads }
      else store_chunk c name (extend (entry (lookup name c.downloads)) total bytes)

  -- The two protocol errors: report, and reset the connection.
  unfoldable pub refuse : Client Image Cert → Refusal → Client Image Cert
  refuse c bad_magic = abort_socket (emit c (error_occurred bad_magic_seen))
  refuse c oversize = abort_socket (emit c (error_occurred oversize_seen))

  -- After an error the buffer is left as it was, until the next connection clears it.
  keep_rest : Bytes → Drained (Client Image Cert) → Client Image Cert
  keep_rest old (waiting c rest) = record c { rx = rest }
  keep_rest old (ended c) = record c { rx = old }

module _ {R Image Cert : Type 0} (qt : Qt R Image Cert) where
  show_frame : Client Image Cert → Option Image → ℕ → ℕ → ℕ → ℕ → Client Image Cert
  show_frame c none seq w h ts = c
  show_frame c (some img) seq w h ts = emit c (video_frame_received img seq w h ts)

  unfoldable pub handle_video_frame : Client Image Cert → Bytes → Client Image Cert
  unfolding show_frame
  handle_video_frame c payload =
      if ltb (length payload) video_subheader_size
      then c
      else show_frame c (qt.load_jpeg (drop video_subheader_size payload)) (get_u32 payload)
          (get_u32 (drop 4 payload)) (get_u32 (drop 8 payload)) (get_u64 (drop 12 payload))

  remote_file : JsonObject → RemoteFile
  remote_file o = record {
    name = o.text_of (codes "name");
    size = o.number_of (codes "size");
    mtime = o.number_of (codes "mtime");
  }

  remote_files : List JsonObject → List RemoteFile
  unfolding remote_file
  remote_files [] = []
  remote_files (o ∷ os) = remote_file o ∷ remote_files os

  listed : Option (List JsonObject) → List RemoteFile
  unfolding remote_files
  listed none = []
  listed (some os) = remote_files os

  pub handle_file_list : Client Image Cert → Bytes → Client Image Cert
  unfolding listed
  handle_file_list c payload = emit c (file_list_received (listed (qt.read_array payload)))

  unfoldable pub handle_file_data : Client Image Cert → Bytes → Client Image Cert
  handle_file_data c payload =
      if ltb (length payload) 9
      then c
      else if ltb (length payload) (9 + get_or payload 8 0)
      then c
      else let name_len = get_or payload 8 0 in
        add_chunk c (qt.from_utf8 (take name_len (drop 9 payload))) (get_u32 (drop 4 payload))
          (drop (9 + name_len) payload)

  pub handle_file_delete_resp : Client Image Cert → Bytes → Client Image Cert
  handle_file_delete_resp c payload =
      let o = qt.read_object payload in
      emit c (file_deleted (o.text_of (codes "name")) (o.flag_of (codes "ok")))

  handle_type : Client Image Cert → Option MsgType → Bytes → Client Image Cert
  handle_type c none payload = c
  handle_type c (some video_frame) payload = handle_video_frame c payload
  handle_type c (some file_list_resp) payload = handle_file_list c payload
  handle_type c (some file_data) payload = handle_file_data c payload
  handle_type c (some file_delete_resp) payload = handle_file_delete_resp c payload
  handle_type c (some _) payload = c

  -- No message makes the client leave its loop.
  unfoldable pub handle_message : Client Image Cert → ℕ → Bytes → Client Image Cert × Bool
  unfolding handle_type
  handle_message c type payload = (handle_type c (msg_type type) payload, true)

  unfoldable pub process_buffer : Client Image Cert → Client Image Cert
  unfolding keep_rest
  process_buffer c = keep_rest c.rx (drain_all max_message_bytes refuse handle_message c c.rx)

  -- `got` is what the socket has to read.
  unfoldable pub on_ready_read : Client Image Cert → Bytes → Client Image Cert
  unfolding process_buffer
  on_ready_read c got = process_buffer (record c { rx = c.rx ++ got })
