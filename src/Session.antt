-- ===== src/Session.antt =====
-- terminal/src/net/ClientSession.cpp: one connected client, on its own thread. This file holds the
-- session's state and the replies that it sends; `Session.Dispatch` holds the message handling and
-- the read loop, and `Session.Run` the poll loop around it.
pub mod Chunks
pub mod Confined
pub mod Dispatch
pub mod Ending
pub mod Gate
pub mod Run
pub mod Stranger
use qt_s5p6818_face_tracking.Base.{
  ℕ, zero, suc, ◌+◌, ◌-◌, ◌*◌, ◌/◌, ◌%◌, ◌^◌, min, Bool, true, false, ◌&&◌, ◌||◌, List, [], ◌∷◌,
  ◌++◌, Bytes, Option, none, some, length, take, drop, ltb, ◌==◌, if◌then◌else◌, equal,
}
use qt_s5p6818_face_tracking.Base.Text.{codes, to_string}
use qt_s5p6818_face_tracking.Core.Commands.{Command}
use qt_s5p6818_face_tracking.Core.Hub.{Frame}
use qt_s5p6818_face_tracking.Files.{FileSystem, FileManager, FileInfo, list, read}
use qt_s5p6818_face_tracking.Json.{escape}
use qt_s5p6818_face_tracking.Protocol.{
  MsgType, file_list_resp, file_data, build_message, build_video_frame, put_u32,
}

-- The connection below the session (`IConn`): the messages handed to `send` so far, and whether the
-- network takes the n-th of them.
pub record Link : Type 0 where
  pub sent : List Bytes
  pub accepts : ℕ → Bool

unfoldable pub send : Link → Bytes → Link × Bool
send l msg = (record l { sent = l.sent ++ msg ∷ [] }, l.accepts (length l.sent))

-- `queue` and `disk` are the shared command queue and capture directory as this session sees them.
pub record Session (R D : Type 0) : Type 0 where
  pub auth_token : Bytes
  pub authed : Bool
  pub last_sent_seq : ℕ
  pub link : Link
  pub queue : List (Command R)
  pub disk : D
  pub handled : ℕ

module _ {R D : Type 0} where
  -- The constructor. `UINT32_MAX` is the sequence number that no frame has been sent under.
  unfoldable pub create : Bytes → Link → List (Command R) → D → Session R D
  unfolding equal
  create token link queue disk = record {
    auth_token = token;
    authed = equal token [];
    last_sent_seq = 2 ^ 32 - 1;
    link = link;
    queue = queue;
    disk = disk;
    handled = 0;
  }

  -- The result of the write is ignored: a dead socket is caught by the frame loop.
  unfoldable pub send_json : Session R D → MsgType → Bytes → Session R D
  unfolding send
  send_json s type json = record s { link = (send s.link (build_message type json 0)).0 }

  send_latest : {Image : Type 0} → Session R D → Option (Frame Image) → Session R D × Bool
  unfolding send
  send_latest s none = (s, true)
  send_latest s (some f) =
      if length f.jpeg == 0
      then (s, true)
      else if f.seq == s.last_sent_seq
      then (s, true)
      else let msg =
          build_video_frame f.seq (f.width % 2 ^ 32) (f.height % 2 ^ 32) f.ts_ms f.jpeg in
        let (l, done) = send s.link msg in (record s { last_sent_seq = f.seq; link = l }, done)

  unfoldable pub send_frame_if_new :
      {Image : Type 0} → Session R D → Option (Frame Image) → Session R D × Bool
  unfolding send_latest
  send_frame_if_new s latest = send_latest s latest

-- One element of the file list.
file_json : FileInfo → Bytes
file_json f =
    codes "{\"name\":\""
    ++ (escape f.name
        ++ (codes "\",\"size\":"
            ++ (to_string f.size ++ (codes ",\"mtime\":" ++ (to_string f.mtime ++ codes "}")))))

-- The loop over the files; the flag is `i != 0`.
files_json : Bool → List FileInfo → Bytes
unfolding file_json
files_json more [] = []
files_json more (f ∷ fs) = (if more then codes "," else []) ++ (file_json f ++ files_json true fs)

unfoldable pub list_json : List FileInfo → Bytes
unfolding files_json
list_json fs = codes "[" ++ (files_json false fs ++ codes "]")

abbrev pub chunk_size : ℕ
chunk_size = 32 * 1024

-- The number of chunks of a file; 0 if it could not be read or is empty.
unfoldable pub total_chunks : Option Bytes → ℕ
total_chunks none = 0
total_chunks (some bytes) =
    if length bytes == 0 then 0 else (length bytes + chunk_size - 1) / chunk_size % 2 ^ 32

-- The payload of one FILE_DATA message.
unfoldable pub chunk_payload : Bytes → ℕ → ℕ → Bytes → Bytes
chunk_payload name idx total bytes =
    let pl = put_u32 [] idx in
    let pl = put_u32 pl total in
    let pl = pl ++ (length name % 256) ∷ [] in let pl = pl ++ name in pl ++ bytes

unfoldable pub build_chunk : Bytes → ℕ → ℕ → Bytes → Bytes
unfolding chunk_payload
build_chunk name idx total bytes = build_message file_data (chunk_payload name idx total bytes) 0

-- The loop over the chunks from `idx` on, `k` of them; it ends at the first failed write.
unfoldable pub send_chunks : Link → Bytes → ℕ → Bytes → ℕ → ℕ → Link
unfolding send
send_chunks l name total bytes zero idx = l
send_chunks l name total bytes (suc k) idx =
    let start = idx * chunk_size in
    let n = min chunk_size (length bytes - start) in
    let (l', done) = send l (build_chunk name idx total (take n (drop start bytes))) in
    elim done [ true ↦ send_chunks l' name total bytes k (idx + 1) | false ↦ l' ]

unfoldable pub or_nothing : Option Bytes → Bytes
or_nothing none = []
or_nothing (some bytes) = bytes

send_contents : Link → Bytes → Option Bytes → Link
unfolding send send_chunks or_nothing
send_contents l name contents =
    let total = total_chunks contents in
    if total == 0
    then (send l (build_chunk name 0 total [])).0
    else send_chunks l name total (or_nothing contents) total 0

module _ {R D Image : Type 0} (fs : FileSystem D Image) (m : FileManager) where
  unfoldable pub send_file_list : Session R D → Session R D
  unfolding send_json
  send_file_list s = send_json s file_list_resp (list_json (list fs m s.disk))

  unfoldable pub send_file : Session R D → Bytes → Session R D
  unfolding send_contents
  send_file s name =
      if ltb 255 (length name)
      then s
      else record s { link = send_contents s.link name (read fs m name s.disk) }
