-- ===== src/Remote/Download.antt =====
-- A download from the request of pc-client/src/net/TcpClient.cpp (`requestFile`) through
-- terminal/src/net/ClientSession.cpp back to the client.
use mathlib.Core.List.{flatten}
use qt_s5p6818_face_tracking.Base.{
  ℕ, suc, ◌*◌, ◌-◌, ◌^◌, ◌≤◌, ◌≡◌, refl, sym, ap, ◌∙◌, true, List, [], ◌∷◌, ◌++◌, map, Bytes,
  Option, none, some, length, length-append, drop, drop-append, append_assoc, arith,
}
use qt_s5p6818_face_tracking.Base.Text.{codes}
use qt_s5p6818_face_tracking.Client.{
  Client, Qt, text, call, write, emit, file_downloaded, request_file,
}
use qt_s5p6818_face_tracking.Client.Receive
use qt_s5p6818_face_tracking.Client.Receive.{lookup, erase, max_message_bytes}
use qt_s5p6818_face_tracking.Client.Transfer.{transfer}
use qt_s5p6818_face_tracking.Files.{FileSystem, FileManager, read}
use qt_s5p6818_face_tracking.Json.{escape, escape_byte, get_string}
use qt_s5p6818_face_tracking.Json.Strings.{sanitize_byte, get_string-escape}
use qt_s5p6818_face_tracking.Protocol.{file_get_req, type_code, build_message, msg_type}
use qt_s5p6818_face_tracking.Remote.{IsCompact, is_plain}
use qt_s5p6818_face_tracking.Remote.Delivery.{stream_of, authed-on_message, send_message_lem}
use qt_s5p6818_face_tracking.Session.{Session, send_file, or_nothing, chunk_size}
use qt_s5p6818_face_tracking.Session.Chunks.{send_file-sent, built, data_messages, file_payloads}
use qt_s5p6818_face_tracking.Session.Dispatch.{
  Moment, max_message, handle_message, on_message, refuse,
}
use qt_s5p6818_face_tracking.Stream.{waiting, resume_all}
use qt_s5p6818_face_tracking.Stream.Messages.{resume_all-wire}

-- The body of a FILE_GET_REQ.
abbrev name_body : Bytes → Bytes
name_body name = codes "{\"name\":\"" ++ (name ++ codes "\"}")

escape-plain : (s : Bytes) → is_plain s ≡ true → escape s ≡ s
unfolding escape escape_byte
escape-plain [] h = refl
escape-plain (b ∷ s) h = ground (arith, escape-plain s)

sanitize-plain : (s : Bytes) → is_plain s ≡ true → map sanitize_byte s ≡ s
sanitize-plain [] h = refl
sanitize-plain (b ∷ s) h = ground (arith, sanitize-plain s)

get_string-name_body :
    (name : Bytes) → is_plain name ≡ true → get_string (name_body name) (codes "name") ≡ some name
get_string-name_body name h =
    ap (λ n. get_string (codes "{\"name\":\"" ++ (n ++ codes "\"}")) (codes "name"))
      (sym (escape-plain name h))
    ∙ get_string-escape (codes "name") name (codes "}")
    ∙ ap some (sanitize-plain name h)

-- The session after a request for a file.
abbrev pub answered :
    {R D Picture : Type 0} → FileSystem D Picture → FileManager → Session R D → Bytes → Session R D
answered fs m s name = send_file fs m (record s { handled = suc s.handled }) name

module _ {R Image Cert : Type 0} (print : R → Bytes) (qt : Qt R Image Cert)
    (compact : IsCompact print qt.to_json) where
  request_file_lem :
      (c : Client Image Cert) (name : Bytes)
      → c.is_connected ≡ true
      → is_plain name ≡ true
      → request_file qt c name ≡ call c (write (build_message file_get_req (name_body name) 0))
  unfolding request_file
  request_file_lem c name on h =
      send_message_lem print qt compact c file_get_req _ (name_body name) on (
        compact ((codes "name", text name) ∷ []) h
        ∙ ap (λ b. codes "{\"name\":\"" ++ b) (append_assoc name (codes "\"") (codes "}")))

  module _ {D Picture : Type 0} (fs : FileSystem D Picture) (m : FileManager)
      (strtod : Bytes → Option R) (zero : R) (moments : ℕ → Moment Picture) where
    on_message-answered :
        (s : Session R D) (name : Bytes)
        → s.authed ≡ true
        → is_plain name ≡ true
        → on_message fs m strtod zero moments s (type_code file_get_req) (name_body name)
          ≡ (answered fs m s name, true)
    unfolding handle_message type_code msg_type
    on_message-answered s name a h =
        authed-on_message print strtod zero fs m moments s (type_code file_get_req) (name_body name)
          a
        ∙ rw (get_string-name_body name h) refl

    length-name_body : (name : Bytes) → length name ≤ 255 → length (name_body name) ≤ max_message
    length-name_body name k = omega (arith, length-append name (codes "\"}"))

    session_answers :
        (c : Client Image Cert) (s : Session R D) (name q : Bytes) (qs : List Bytes)
        → c.is_connected ≡ true
        → s.authed ≡ true
        → is_plain name ≡ true
        → length name ≤ 255
        → q ++ flatten qs ≡ stream_of print (drop (length c.calls) (request_file qt c name).calls)
        → resume_all max_message refuse
            (on_message fs m strtod zero moments)
            (waiting s [])
            (q ∷ qs)
          ≡ waiting (answered fs m s name) []
    session_answers c s name q qs on a h k e =
        let asked = write (build_message file_get_req (name_body name) 0) ∷ [] in
        let calls =
          ap (λ d. drop (length c.calls) d.calls) (request_file_lem c name on h)
          ∙ drop-append c.calls asked in
        resume_all-wire max_message refuse (on_message fs m strtod zero moments) s
          ((file_get_req, name_body name) ∷ []) q qs (omega arith) (length-name_body name k, tt)
          (e ∙ ap (stream_of print) calls)
        ∙ rw (on_message-answered s name a h) refl

    -- A connected client asks an authorised session for a file under a plain name of at most 255
    -- bytes; the request and the answer are cut into reads in any way. The session answers with
    -- `send_file` and waits for more, and the client that has no download under that name reports
    -- one completed download: the file, or no bytes where it could not be read. The connection
    -- takes every message, the number of chunks fits 32 bits, Qt writes compact JSON.
    pub download :
        (c : Client Image Cert) (s : Session R D) (name q : Bytes) (qs : List Bytes) (r : Bytes)
        (rs : List Bytes)
        → c.is_connected ≡ true
        → s.authed ≡ true
        → is_plain name ≡ true
        → length name ≤ 255
        → ((n : ℕ) → s.link.accepts n ≡ true)
        → length (or_nothing (read fs m name s.disk)) ≤ (2 ^ 32 - 1) * chunk_size
        → lookup (qt.from_utf8 name) c.downloads ≡ none
        → q ++ flatten qs ≡ stream_of print (drop (length c.calls) (request_file qt c name).calls)
        → r ++ flatten rs ≡ flatten (drop (length s.link.sent) (answered fs m s name).link.sent)
        → (resume_all max_message refuse
              (on_message fs m strtod zero moments)
              (waiting s [])
              (q ∷ qs)
            ≡ waiting (answered fs m s name) [])
          × (resume_all max_message_bytes Receive.refuse
                (Receive.handle_message qt)
                (waiting (request_file qt c name) [])
                (r ∷ rs)
              ≡ waiting
                  (record (emit
                    (request_file qt c name)
                    (file_downloaded (qt.from_utf8 name) (or_nothing (read fs m name s.disk)))) {
                      downloads = erase (qt.from_utf8 name) c.downloads;
                    })
                  [])
    download c s name q qs r rs on a h k ok size free asked cut =
        let s1 : Session R D = record s { handled = suc s.handled } in
        let sent = built (data_messages (file_payloads name (read fs m name s.disk))) in
        let told = send_file-sent fs m s1 name k ok in
        let kept : (request_file qt c name).downloads ≡ c.downloads =
          ap (λ d. d.downloads) (request_file_lem c name on h) in
        (
          session_answers c s name q qs on a h k asked,
          transfer qt fs m s1 (request_file qt c name) name sent r rs k ok size
                (ap (lookup (qt.from_utf8 name)) kept ∙ free) told
                (cut
                  ∙ ap (λ x. flatten (drop (length s.link.sent) x)) told
                  ∙ ap flatten (drop-append s.link.sent sent))
              ∙ ap
                  (λ ds.
                    waiting
                      (record (emit (request_file qt c name) (
                        file_downloaded (qt.from_utf8 name) (or_nothing (read fs m name s.disk)))) {
                          downloads = erase (qt.from_utf8 name) ds;
                        })
                      [])
                  kept,
        )
