-- ===== src/Tests/Streams.antt =====
-- Runs of whole writes on a socket, and of the vision loop up to the frames that a client gets.
use mathlib.Core.List.{Mem}
use qt_s5p6818_face_tracking.Base.{
  ◌≤◌, ◌-◌, ◌^◌, Bool, map, All, ℕ, ◌≡◌, refl, true, false, List, [], ◌∷◌, ◌++◌, Bytes, none, some,
  arith,
}
use qt_s5p6818_face_tracking.Core.Tracking.{pos, Recti}
use qt_s5p6818_face_tracking.Session.Dispatch.{eof}
use qt_s5p6818_face_tracking.Sockets.Raw.{
  Kernel, Use, receives, sends, hangs_up, AreFronts, outcomes, used_all, tcp_conn, raw_stream,
  create_raw, close_raw, tcp_conn_lem,
}
use qt_s5p6818_face_tracking.Sockets.{Written, wrote, interrupted, all_sent, send_all}
use qt_s5p6818_face_tracking.Core.Hub.{Frame, publish, latest}
use qt_s5p6818_face_tracking.Session.{Session, send, send_frame_if_new}
use qt_s5p6818_face_tracking.Tests.Samples.{locked}
use qt_s5p6818_face_tracking.Video.{
  Turn, sees, pushes, Video, frame_of, published, video_message, Rises, In, turn, turns,
}
use qt_s5p6818_face_tracking.Video.Order.{turns_ordered}
use qt_s5p6818_face_tracking.Vision.Faces.{detect-largest}
use qt_s5p6818_face_tracking.Vision.{Face, area, detect, Capture, Vision, see, see_all}
use qt_s5p6818_face_tracking.Vision.Snapshots.{Chain, saved-Chain}

abbrev payload : Bytes
payload = 1 ∷ 2 ∷ 3 ∷ []

abbrev writes : List Written
writes = wrote 2 ∷ interrupted ∷ wrote 1 ∷ []

abbrev kernel : Kernel
kernel = record { recv = λ k fd room. eof; send = λ k fd. writes }

-- A read, a message that is cut in two, and an early close.
abbrev uses : List Use
uses = receives 4096 ∷ sends payload ∷ hangs_up ∷ []

tcp_conn_lem_example :
    AreFronts
      (outcomes (tcp_conn (raw_stream kernel)) (create_raw 7) uses)
      (used_all (tcp_conn (raw_stream kernel)) (create_raw 7) uses).written
    × ((close_raw (used_all (tcp_conn (raw_stream kernel)) (create_raw 7) uses)).fd ≡ none)
    × ((close_raw (used_all (tcp_conn (raw_stream kernel)) (create_raw 7) uses)).closed ≡ 7 ∷ [])
tcp_conn_lem_example = tcp_conn_lem kernel 7 uses

send_all_test : send_all writes [] payload ≡ (payload, all_sent)
unfolding send_all
send_all_test = refl

abbrev origin : Recti
origin = record { x = pos 0; y = pos 0; w = pos 9; h = pos 9 }

abbrev with_face : ℕ → Capture Unit
with_face t = record {
  grabbed = true;
  cols = 640;
  rows = 480;
  found = some origin;
  marked = tt;
  jpeg = [];
  frame_ms = t;
  now = t;
}

abbrev without_face : ℕ → Capture Unit
without_face t = record {
  grabbed = true;
  cols = 640;
  rows = 480;
  found = none;
  marked = tt;
  jpeg = [];
  frame_ms = t;
  now = t;
}

abbrev dark : Vision Unit
dark = record {
  seq = 0;
  last_snap_ms = 0;
  prev_found = false;
  hub = none;
  track = record {
    found = false;
    box = origin;
    center = record { x = pos 0; y = pos 0 };
    frame_w = pos 0;
    frame_h = pos 0;
  };
  face_found = false;
  saved = [];
}

abbrev captures : List (Capture Unit)
captures =
    with_face 6000 ∷ without_face 6050 ∷ with_face 6100 ∷ without_face 6150 ∷ with_face 12000 ∷ []

saved-Chain_example :
    (new : List ℕ) × ((see_all true 5000 dark captures).saved ≡ [] ++ new) × Chain 5000 0 new
saved-Chain_example = saved-Chain true 5000 captures dark (omega arith)

abbrev fresh : Session ℕ Bool
fresh = record locked { last_sent_seq = 2 ^ 32 - 1 }

-- A frame that is pushed twice, one that is overtaken by the next, and one that is not grabbed.
abbrev schedule : List (Turn Unit)
schedule =
    pushes
    ∷ sees (record (with_face 10) { jpeg = 1 ∷ [] })
    ∷ pushes
    ∷ pushes
    ∷ sees (record (with_face 20) { jpeg = 2 ∷ [] })
    ∷ sees (record (with_face 30) { grabbed = false })
    ∷ sees (record (without_face 40) { jpeg = 3 ∷ [] })
    ∷ pushes
    ∷ []

abbrev start : Video ℕ Bool Unit
start = record { vision = dark; session = fresh; alive = true }

turns_ordered_example :
    (fs : List (Frame Unit)) × ((turns true 5000 start schedule).session.link.sent
      ≡ [] ++ map video_message fs)
    × Rises 0 fs
    × All (λ f. In f (published 0 schedule)) fs
turns_ordered_example = turns_ordered true 5000 dark fresh schedule refl refl refl (omega arith)

-- The first and the last of the three frames are sent.
turns_test :
    (turns true 5000 start schedule).session.link.sent
    ≡ video_message (frame_of 0 (record (with_face 10) { jpeg = 1 ∷ [] }))
      ∷ video_message (frame_of 2 (record (without_face 40) { jpeg = 3 ∷ [] }))
      ∷ []
unfolding turns turn see send_frame_if_new send publish latest
turns_test = refl

abbrev small : Face
small = record { x = 1; y = 2; width = 3; height = 4 }

abbrev big : Face
big = record { x = 5; y = 6; width = 7; height = 8 }

detect-largest_example :
    (best : Face) × Mem best (small ∷ big ∷ [])
    × All (λ g. area g ≤ area best) (small ∷ big ∷ [])
    × (detect pos false (small ∷ big ∷ [])
        ≡ some (record { x = pos best.x; y = pos best.y; w = pos best.width; h = pos best.height }))
detect-largest_example = detect-largest pos small (big ∷ [])
