-- ===== src/Session/Chunks.antt =====
-- What `sendFile` of terminal/src/net/ClientSession.cpp puts on a connection that takes it all.
use qt_s5p6818_face_tracking.Base.{
  ℕ, zero, suc, ◌+◌, ◌-◌, ◌*◌, ◌≤◌, ◌≡◌, refl, sym, ◌∙◌, true, List, [], ◌∷◌, ◌++◌, Bytes, Option,
  length, length-append, length-take, take, drop, min, ◌==◌, if◌then◌else◌, arith, All,
  append_assoc, append-nil, ge→ltb, Bool-cases, inl, inr,
}
use qt_s5p6818_face_tracking.Files.{FileSystem, FileManager, read}
use qt_s5p6818_face_tracking.Protocol.{MsgType, file_data, build_message, put_u32}
use qt_s5p6818_face_tracking.Session.{
  Link, Session, send, chunk_size, chunk_payload, build_chunk, total_chunks, send_chunks,
  send_contents, send_file, or_nothing,
}

-- The payloads of the chunks from `idx` on, `k` of them.
abbrev pub chunk_payloads : Bytes → ℕ → Bytes → ℕ → ℕ → List Bytes
chunk_payloads name total bytes zero idx = []
chunk_payloads name total bytes (suc k) idx =
    chunk_payload name idx total
      (take (min chunk_size (length bytes - idx * chunk_size)) (drop (idx * chunk_size) bytes))
    ∷ chunk_payloads name total bytes k (idx + 1)

-- The payloads that answer a request for a file with these contents, if it could be read.
abbrev pub file_payloads : Bytes → Option Bytes → List Bytes
file_payloads name contents =
    let total = total_chunks contents in
    if total == 0
    then chunk_payload name 0 total [] ∷ []
    else chunk_payloads name total (or_nothing contents) total 0

abbrev pub data_messages : List Bytes → List (MsgType × Bytes)
data_messages [] = []
data_messages (p ∷ ps) = (file_data, p) ∷ data_messages ps

abbrev pub built : List (MsgType × Bytes) → List Bytes
built [] = []
built ((t, p) ∷ ms) = build_message t p 0 ∷ built ms

send_chunks-sent :
    (k : ℕ) (l : Link) (name : Bytes) (total : ℕ) (bytes : Bytes) (idx : ℕ)
    → ((n : ℕ) → l.accepts n ≡ true)
    → (send_chunks l name total bytes k idx).sent
      ≡ l.sent ++ built (data_messages (chunk_payloads name total bytes k idx))
unfolding send_chunks send build_chunk
send_chunks-sent zero l name total bytes idx ok = sym (append-nil l.sent)
send_chunks-sent (suc k) l name total bytes idx ok =
    rw (ok (length l.sent), send_chunks)
      (send_chunks-sent k _ name total bytes (idx + 1) ok ∙ append_assoc l.sent _ _)

-- On a connection that takes every message, and for a name of 255 bytes at most, `send_file`
-- sends the FILE_DATA messages of the contents, cut in chunks of 32 KiB and numbered, in order,
-- and nothing else.
pub send_file-sent :
    {R D Image : Type 0} (fs : FileSystem D Image) (m : FileManager) (s : Session R D)
    (name : Bytes)
    → length name ≤ 255
    → ((n : ℕ) → s.link.accepts n ≡ true)
    → (send_file fs m s name).link.sent
      ≡ s.link.sent ++ built (data_messages (file_payloads name (read fs m name s.disk)))
unfolding send_file send_contents send build_chunk
send_file-sent fs m s name h ok =
    rw (ge→ltb 255 (length name) h) (elim (Bool-cases (total_chunks (read fs m name s.disk) == 0)) [
      | inl e ↦ rw e refl
      | inr e ↦ rw e (send_chunks-sent _ s.link name _ _ 0 ok)
    ])

length-chunk_payload :
    (name bytes : Bytes) (idx total : ℕ)
    → length (chunk_payload name idx total bytes) ≡ 9 + length name + length bytes
unfolding chunk_payload put_u32
length-chunk_payload name bytes idx total = omega (arith, length-append name bytes)

chunk_payloads-length :
    (name : Bytes) (total : ℕ) (bytes : Bytes) (k idx limit : ℕ)
    → length name ≤ 255
    → 9 + 255 + chunk_size ≤ limit
    → All (λ m. length m.1 ≤ limit) (data_messages (chunk_payloads name total bytes k idx))
chunk_payloads-length name total bytes zero idx limit h g = tt
chunk_payloads-length name total bytes (suc k) idx limit h g = (
  omega (
    arith,
    length-chunk_payload name
        (take (min chunk_size (length bytes - idx * chunk_size)) (drop (idx * chunk_size) bytes))
        idx total,
    length-take (min chunk_size (length bytes - idx * chunk_size)) (drop (idx * chunk_size) bytes),
  ),
  chunk_payloads-length name total bytes k (idx + 1) limit h g,
)

-- No chunk is longer than a receiver's limit allows.
pub file_payloads-length :
    (name : Bytes) (contents : Option Bytes) (limit : ℕ)
    → length name ≤ 255
    → 9 + 255 + chunk_size ≤ limit
    → All (λ m. length m.1 ≤ limit) (data_messages (file_payloads name contents))
file_payloads-length name contents limit h g = elim (Bool-cases (total_chunks contents == 0)) [
  | inl e ↦ rw e (omega (arith, length-chunk_payload name [] 0 (total_chunks contents)), tt)
  | inr e ↦ rw e (chunk_payloads-length name _ _ _ 0 limit h g)
]
