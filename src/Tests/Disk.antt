-- ===== src/Tests/Disk.antt =====
-- Runs of the capture directory, alone and below a session.
use mathlib.Core.List.{Mem}
use qt_s5p6818_face_tracking.Base.{
  ℕ, List, arith, ◌≡◌, refl, ◌↔◌, equal, true, false, [], ◌∷◌, Bytes, none, some, length, All,
}
use qt_s5p6818_face_tracking.Base.Text.{codes, find}
use qt_s5p6818_face_tracking.Files.{FileStat, OpenFile, join, resolve, remove, list, is_hidden}
use qt_s5p6818_face_tracking.Files.Names.{IsBasename, resolve_iff, read-confined}
use qt_s5p6818_face_tracking.Files.Stamps.{IsStamp}
use qt_s5p6818_face_tracking.Files.Listing.{IsNewestFirst, IsShown, list_shows}
use qt_s5p6818_face_tracking.Protocol.{file_delete_req, snapshot_req, build_message, msg_type}
use qt_s5p6818_face_tracking.Json.{get_string, value_pos, unquote}
use qt_s5p6818_face_tracking.Session.{send_json}
use qt_s5p6818_face_tracking.Session.Confined.{session_of, run_confined}
use qt_s5p6818_face_tracking.Session.Dispatch.{Moment, bytes, handle_message}
use qt_s5p6818_face_tracking.Session.Dispatch.Confined.{Edits}
use qt_s5p6818_face_tracking.Session.Run.{Tick, readable, run}
use qt_s5p6818_face_tracking.Tests.Samples.{
  no_number, moments, opened, photo, photo_path, manager, picture, disk_calls, read-photo,
}

resolve_iff_example :
    (resolve manager photo ≡ some photo_path)
    ↔ (IsBasename photo × (photo_path ≡ join manager.dir photo))
resolve_iff_example = resolve_iff manager photo photo_path

abbrev ask_delete : Bytes
ask_delete = build_message file_delete_req (codes "{\"name\":\"a.jpg\"}") 0

abbrev ask_snapshot : Bytes
ask_snapshot = build_message snapshot_req [] 0

abbrev tick_with : Bytes → Tick Unit
tick_with got = record {
  stop = false;
  auth_ms = 10;
  polled = readable (bytes got);
  frame_ms = 10;
  sent_ms = 10;
  latest = none;
}

-- A picture in the hub, and the time of the messages.
abbrev stamped : ℕ → Moment Unit
stamped k = record {
  hub = some (record { mat = tt; jpeg = 1 ∷ []; seq = k; width = 1; height = 1; ts_ms = 7 });
  base = codes "snap_20240102_030405";
  now_ms = 1007;
}

abbrev ticks : List (Tick Unit)
ticks = tick_with ask_delete ∷ tick_with ask_snapshot ∷ []

stamped-IsStamp : (k : ℕ) → IsStamp (stamped k).base
stamped-IsStamp k = (
  omega arith,
  (
    refl,
    (
      refl,
      (
        refl,
        (
          refl,
          (
            refl,
            (
              refl,
              (
                refl,
                (
                  refl,
                  (
                    refl,
                    (
                      refl,
                      (
                        refl,
                        (refl, (refl, (refl, (refl, (refl, (refl, (refl, (refl, (refl, tt))))))))),
                      ),
                    ),
                  ),
                ),
              ),
            ),
          ),
        ),
      ),
    ),
  ),
)

run_confined_example :
    Edits disk_calls manager stamped true
      (session_of (run disk_calls manager no_number 0 stamped 15 1 opened true ticks)).disk
run_confined_example =
    run_confined disk_calls manager no_number 0 stamped 15 1 opened true ticks stamped-IsStamp

read-confined_example :
    IsBasename photo
    × ((f : OpenFile) × (disk_calls.fopen true (join manager.dir photo) ≡ some f)
        × (f.end ≡ some (length picture)))
read-confined_example = read-confined disk_calls manager photo true read-photo

list_shows_example :
    IsNewestFirst (list disk_calls manager true)
    × All (IsShown disk_calls manager true) (list disk_calls manager true)
    × ((e : Bytes) (st : FileStat)
        → Mem e (photo ∷ (46 ∷ []) ∷ [])
        → is_hidden e ≡ false
        → disk_calls.stat true (join manager.dir e) ≡ some st
        → st.is_regular ≡ true
        → Mem
            (record { name = e; size = st.size; mtime = st.mtime })
            (list disk_calls manager true))
list_shows_example =
    list_shows disk_calls manager true (photo ∷ (46 ∷ []) ∷ []) (unfold disk_calls in refl)

-- A delete request of an authorised client removes the photo, and one with a path does not.
photo_deleted_test :
    (handle_message disk_calls manager no_number 0 moments opened 0x34
      (codes "{\"name\":\"a.jpg\"}")).disk
    ≡ false
unfolding handle_message remove resolve disk_calls equal find msg_type get_string value_pos unquote
    send_json
photo_deleted_test = refl

path_kept_test :
    (handle_message disk_calls manager no_number 0 moments opened 0x34
      (codes "{\"name\":\"c/a.jpg\"}")).disk
    ≡ true
unfolding handle_message remove resolve disk_calls equal find msg_type get_string value_pos unquote
    send_json
path_kept_test = refl
