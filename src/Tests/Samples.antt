-- ===== src/Tests/Samples.antt =====
-- The data that the tests of the terminal and its clients share.
use qt_s5p6818_face_tracking.Base.{
  ℕ, ◌≡◌, refl, Bool, true, false, List, [], ◌∷◌, ◌++◌, Bytes, Option, none, some, take, equal,
  if◌then◌else◌,
}
use qt_s5p6818_face_tracking.Base.Text.{find, codes, to_string}
use qt_s5p6818_face_tracking.Client.{Client, Qt}
use qt_s5p6818_face_tracking.Files.{FileSystem, FileManager, exists, read, resolve}
use qt_s5p6818_face_tracking.Remote.{members}
use qt_s5p6818_face_tracking.Session.{Link, Session}
use qt_s5p6818_face_tracking.Session.Dispatch.{Moment}
use qt_s5p6818_face_tracking.Stream.{Refusal}

-- `a.jpg`, and its path below the directory `c`.
abbrev pub photo : Bytes
photo = 97 ∷ 46 ∷ 106 ∷ 112 ∷ 103 ∷ []

abbrev pub photo_path : Bytes
photo_path = 99 ∷ 47 ∷ photo

abbrev pub manager : FileManager
manager = record { dir = 99 ∷ []; jpeg_quality = 90 }

abbrev pub picture : Bytes
picture = 255 ∷ 216 ∷ 255 ∷ []

-- A disk with that one file of three bytes, or without it.
unfoldable pub disk_calls : FileSystem Bool Unit
unfolding equal
disk_calls = record {
  mkdir = λ d p. (d, exists);
  readdir = λ d p. some (photo ∷ (46 ∷ []) ∷ []);
  stat = λ d p.
      if equal p photo_path then some (record { is_regular = true; size = 3; mtime = 7 }) else none;
  fopen = λ d p.
      if equal p photo_path
      then some (record { end = some 3; fread = λ n. take n picture })
      else none;
  unlink = λ d p. if equal p photo_path then (false, true) else (d, false);
  is_empty = λ i. false;
  imwrite = λ d p i q. (true, true);
}

abbrev pub link : Link
link = record { sent = []; accepts = λ n. true }

-- A session that asks for the token `k`.
abbrev pub locked : Session ℕ Bool
locked = record {
  auth_token = 107 ∷ [];
  authed = false;
  last_sent_seq = 0;
  link = link;
  queue = [];
  disk = true;
  handled = 0;
}

abbrev pub no_number : Bytes → Option ℕ
no_number bs = none

abbrev pub moments : ℕ → Moment Unit
moments n = record { hub = none; base = []; now_ms = 0 }

-- A MODE_CMD without a body.
abbrev pub mode_bytes : Bytes
mode_bytes = 83 ∷ 69 ∷ 67 ∷ 49 ∷ 0 ∷ 33 ∷ 0 ∷ 0 ∷ 0 ∷ 0 ∷ 0 ∷ 0 ∷ []

-- The tokens `k`, and `k` with a zero byte behind it.
abbrev pub token : Bytes
token = 107 ∷ []

abbrev pub longer_token : Bytes
longer_token = 107 ∷ 0 ∷ []

-- A handler that keeps what it gets.
abbrev pub Seen : Type 0
Seen = List (ℕ × Bytes)

abbrev pub keep : Seen → ℕ → Bytes → Seen × Bool
keep s t p = (s ++ (t, p) ∷ [], true)

abbrev pub ignore : Seen → Refusal → Seen
ignore s why = s

-- The file is read whole.
pub read-photo : read disk_calls manager photo true ≡ some picture
unfolding read resolve disk_calls equal find
read-photo = refl

-- A Qt that writes compact JSON.
abbrev pub qt : Qt ℕ Unit Unit
qt = record {
  to_json = λ fs. codes "{" ++ (members to_string fs ++ codes "}");
  read_array = λ bs. none;
  read_object = λ bs. record { text_of = λ k. []; number_of = λ k. 0; flag_of = λ k. false };
  from_utf8 = λ bs. bs;
  load_jpeg = λ bs. none;
  supports_ssl = false;
  load_certs = λ p. [];
  same_cert = λ a b. true;
}

abbrev pub up_client : Client Unit Unit
up_client = record {
  is_connected = true;
  token = [];
  tls = false;
  pinned = none;
  rx = [];
  downloads = [];
  events = [];
  calls = [];
}

abbrev pub opened : Session ℕ Bool
opened = record locked { authed = true }
