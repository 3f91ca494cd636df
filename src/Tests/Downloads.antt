-- ===== src/Tests/Downloads.antt =====
-- A run of a download.
use mathlib.Core.List.{flatten}
use qt_s5p6818_face_tracking.Base.{
  suc, ◌*◌, ◌-◌, ◌^◌, ◌≤◌, ◌≡◌, refl, sym, ap, ◌∙◌, true, [], ◌∷◌, ◌++◌, Bytes, length, drop,
  append-nil, arith,
}
use qt_s5p6818_face_tracking.Base.Text.{codes, to_string}
use qt_s5p6818_face_tracking.Client.{file_downloaded, emit, request_file}
use qt_s5p6818_face_tracking.Client.Receive
use qt_s5p6818_face_tracking.Client.Receive.{lookup, erase, max_message_bytes}
use qt_s5p6818_face_tracking.Files.{read}
use qt_s5p6818_face_tracking.Protocol.{build_message, put_u16, put_u32, type_code}
use qt_s5p6818_face_tracking.Remote.Delivery.{stream_of}
use qt_s5p6818_face_tracking.Remote.Download.{answered, download}
use qt_s5p6818_face_tracking.Session.{total_chunks, chunk_payload, or_nothing, chunk_size}
use qt_s5p6818_face_tracking.Session.Chunks.{send_file-sent, built, data_messages, file_payloads}
use qt_s5p6818_face_tracking.Session.Dispatch.{on_message, max_message, refuse}
use qt_s5p6818_face_tracking.Stream.{waiting, resume_all}
use qt_s5p6818_face_tracking.Tests.Samples.{
  photo, picture, manager, disk_calls, read-photo, no_number, moments, qt, up_client, opened,
}

-- The one chunk of the file, as it is sent.
abbrev photo_message : Bytes
photo_message =
    codes "SEC1"
    ++ (0 ∷ 51 ∷ 0 ∷ 0 ∷ 0 ∷ 0 ∷ 0 ∷ 17 ∷ 0 ∷ 0 ∷ 0 ∷ 0 ∷ 0 ∷ 0 ∷ 0 ∷ 1 ∷ 5 ∷ (photo ++ picture))

photo_sent : (answered disk_calls manager opened photo).link.sent ≡ photo_message ∷ []
photo_sent =
    send_file-sent disk_calls manager (record opened { handled = suc opened.handled }) photo
      (omega arith) (λ n. refl)
    ∙ ap (λ r. built (data_messages (file_payloads photo r))) read-photo
    ∙ unfold build_message chunk_payload total_chunks put_u16 put_u32 type_code or_nothing in refl

short : length (or_nothing (read disk_calls manager photo true)) ≤ (2 ^ 32 - 1) * chunk_size
short = rw read-photo (unfold or_nothing in omega arith)

abbrev request_bytes : Bytes
request_bytes = stream_of to_string (request_file qt up_client photo).calls

download_example :
    (resume_all max_message refuse
        (on_message disk_calls manager no_number 0 moments)
        (waiting opened [])
        ([] ∷ request_bytes ∷ [])
      ≡ waiting (answered disk_calls manager opened photo) [])
    × (resume_all max_message_bytes Receive.refuse
          (Receive.handle_message qt)
          (waiting (request_file qt up_client photo) [])
          ((83 ∷ []) ∷ drop 1 photo_message ∷ [])
        ≡ waiting
            (record (emit
              (request_file qt up_client photo)
              (file_downloaded photo (or_nothing (read disk_calls manager photo true)))) {
                downloads = erase photo [];
              })
            [])
download_example =
    download to_string qt (λ fs e. refl) disk_calls manager no_number 0 moments up_client opened
      photo [] (request_bytes ∷ []) (83 ∷ []) (drop 1 photo_message ∷ []) refl refl refl
      (omega arith) (λ n. refl) short (unfold lookup in refl)
      (unfold flatten in append-nil request_bytes)
      (unfold flatten in sym (ap (λ ms. flatten (drop 0 ms)) photo_sent))
