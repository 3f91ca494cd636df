-- ===== src/Client/Transfer.antt =====
-- A file on its way from the terminal's disk to the client: `sendFile` of
-- terminal/src/net/ClientSession.cpp, the network, and `processBuffer` of
-- pc-client/src/net/TcpClient.cpp.
use mathlib.Core.List.{flatten}
use qt_s5p6818_face_tracking.Base.{
  ℕ, suc, ◌-◌, ◌*◌, ◌^◌, ◌≤◌, ◌<◌, ◌≡◌, inl, inr, refl, sym, ◌∙◌, ap, true, List, [], ◌∷◌, ◌++◌,
  Bytes, Option, none, some, length, drop, drop-append, ◌==◌, ==_iff, arith, Bool-cases,
}
use qt_s5p6818_face_tracking.Client.{Qt, file_downloaded, Client, emit}
use qt_s5p6818_face_tracking.Client.Receive.{
  lookup, erase, entry, add_chunk, handle_file_data, handle_message, refuse, max_message_bytes,
}
use qt_s5p6818_face_tracking.Client.Downloads.{
  handle_file_data-chunk_payload, receive_all, receive_chunks,
}
use qt_s5p6818_face_tracking.Files.{FileSystem, FileManager, read}
use qt_s5p6818_face_tracking.Protocol.{MsgType, build_message, msg_type, type_code}
use qt_s5p6818_face_tracking.Session.{Session, send_file, total_chunks, or_nothing, chunk_size}
use qt_s5p6818_face_tracking.Session.Chunks.{
  chunk_payloads, file_payloads, data_messages, built, send_file-sent, file_payloads-length,
}
use qt_s5p6818_face_tracking.Stream.{waiting, resume_all}
use qt_s5p6818_face_tracking.Stream.Messages.{wire, deliver, resume_all-wire}

nil_of_length : (xs : Bytes) → length xs ≤ 0 → xs ≡ []
nil_of_length [] h = refl
nil_of_length (x ∷ xs) h = absurd (omega arith)

cancel : (xs ys zs : List Bytes) → xs ++ ys ≡ xs ++ zs → ys ≡ zs
cancel xs ys zs e = sym (drop-append xs ys) ∙ ap (drop (length xs)) e ∙ drop-append xs zs

flatten-built : (ms : List (MsgType × Bytes)) → flatten (built ms) ≡ wire ms
unfolding flatten
flatten-built [] = refl
flatten-built ((t, p) ∷ ms) = ap (λ x. build_message t p 0 ++ x) (flatten-built ms)

module _ {R Image Cert : Type 0} (qt : Qt R Image Cert) where
  deliver-data :
      (c : Client Image Cert) (ps : List Bytes)
      → deliver max_message_bytes refuse (handle_message qt) c (data_messages ps)
        ≡ waiting (receive_all qt c ps) []
  unfolding handle_message type_code msg_type
  deliver-data c [] = refl
  deliver-data c (p ∷ ps) = deliver-data (handle_file_data qt c p) ps

  total_chunks-bound :
      (contents : Option Bytes)
      → length (or_nothing contents) ≤ (2 ^ 32 - 1) * chunk_size
      → (total_chunks contents < 2 ^ 32)
        × (length (or_nothing contents) ≤ total_chunks contents * chunk_size)
  unfolding total_chunks or_nothing
  total_chunks-bound none h = omega arith
  total_chunks-bound (some bytes) h = ground arith

  receive_file :
      (c : Client Image Cert) (name : Bytes) (contents : Option Bytes)
      → length name ≤ 255
      → length (or_nothing contents) ≤ (2 ^ 32 - 1) * chunk_size
      → lookup (qt.from_utf8 name) c.downloads ≡ none
      → receive_all qt c (file_payloads name contents)
        ≡ record (emit c (file_downloaded (qt.from_utf8 name) (or_nothing contents))) {
          downloads = erase (qt.from_utf8 name) c.downloads;
        }
  receive_file c name contents h k f = elim (Bool-cases (total_chunks contents == 0)) [
    | inl e ↦
        let z = (==_iff _ _).0 e in
        let none_left =
          nil_of_length (or_nothing contents) (omega (arith, (total_chunks-bound contents k).1)) in
        rw (e, z)
          (handle_file_data-chunk_payload qt c name [] 0 0 (omega arith) (omega arith)
            ∙ unfold add_chunk in
              refl
              ∙ ap
                  (λ b. record (emit c (file_downloaded (qt.from_utf8 name) b)) {
                    downloads = erase (qt.from_utf8 name) c.downloads;
                  })
                  (sym none_left))
    | inr e ↦
        let total = total_chunks contents in
        let positive : total ≡ suc (total - 1) = ground (arith, e) in
        let empty : entry (lookup (qt.from_utf8 name) c.downloads)
            ≡ record { total = 0; received = 0; bytes = [] } =
          ap entry f ∙ unfold entry in refl in
        rw e (
          ap (λ n. receive_all qt c (chunk_payloads name total (or_nothing contents) n 0)) positive
          ∙ receive_chunks qt c name (or_nothing contents) total (total - 1) 0 (omega arith)
              (total_chunks-bound contents k).0 (omega arith) (total_chunks-bound contents k).1
              (rw empty (record { announced = inl refl; counted = refl; held = refl })))
  ]

  -- What `send_file` puts on the connection, cut by the network in any way, is one completed
  -- download at a client that has none under that name: the file, or no bytes where it could not
  -- be read; the connection takes every message, the name has 255 bytes at most, the number of
  -- chunks fits 32 bits.
  pub transfer :
      {D Picture N : Type 0} (fs : FileSystem D Picture) (m : FileManager) (s : Session N D)
      (c : Client Image Cert) (name : Bytes) (sent : List Bytes) (q : Bytes) (qs : List Bytes)
      → length name ≤ 255
      → ((n : ℕ) → s.link.accepts n ≡ true)
      → length (or_nothing (read fs m name s.disk)) ≤ (2 ^ 32 - 1) * chunk_size
      → lookup (qt.from_utf8 name) c.downloads ≡ none
      → (send_file fs m s name).link.sent ≡ s.link.sent ++ sent
      → q ++ flatten qs ≡ flatten sent
      → resume_all max_message_bytes refuse (handle_message qt) (waiting c []) (q ∷ qs)
        ≡ waiting
            (record (emit c
              (file_downloaded (qt.from_utf8 name) (or_nothing (read fs m name s.disk)))) {
                downloads = erase (qt.from_utf8 name) c.downloads;
              })
            []
  transfer fs m s c name sent q qs h ok k f e cut =
      let contents = read fs m name s.disk in
      let ps = file_payloads name contents in
      let same =
        cancel s.link.sent sent (built (data_messages ps))
          (sym e ∙ send_file-sent fs m s name h ok) in
      resume_all-wire max_message_bytes refuse (handle_message qt) c (data_messages ps) q qs
        (omega arith) (file_payloads-length name contents max_message_bytes h (omega arith))
        (cut ∙ ap flatten same ∙ flatten-built (data_messages ps))
      ∙ deliver-data c ps
      ∙ ap (λ x. waiting x []) (receive_file c name contents h k f)
