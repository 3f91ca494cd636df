-- ===== src/Client/Downloads.antt =====
-- Chunked downloads: `sendFile` of terminal/src/net/ClientSession.cpp against `handleFileData` of
-- pc-client/src/net/TcpClient.cpp.
use qt_s5p6818_face_tracking.Base.{
  ℕ, zero, suc, ◌+◌, ◌-◌, ◌*◌, ◌%◌, ◌^◌, ◌≤◌, ◌<◌, ◌≡◌, ◌≢◌, ◌⊎◌, inl, inr, refl, sym, ◌∙◌, ap,
  true, List, [], ◌∷◌, ◌++◌, Bytes, some, length, length-append, length-drop, take, drop,
  take-append, drop-append, take-add, drop-add, take-min, take-all, min, equal, equal_iff, arith,
  Bool-cases,
}
use qt_s5p6818_face_tracking.Client.{Qt, file_downloaded, Download, Client, emit}
use qt_s5p6818_face_tracking.Client.Receive.{
  lookup, erase, store, entry, extend, store_chunk, add_chunk, handle_file_data,
}
use qt_s5p6818_face_tracking.Protocol.{put_u32, get_u32}
use qt_s5p6818_face_tracking.Session.{chunk_size, chunk_payload}
use qt_s5p6818_face_tracking.Session.Chunks.{chunk_payloads}

equal_self : (k : Bytes) → equal k k ≡ true
equal_self k = (equal_iff k k).1 refl

lookup-store :
    (k : Bytes) (d : Download) (ds : List (Bytes × Download)) → lookup k (store k d ds) ≡ some d
unfolding lookup store
lookup-store k d [] = rw (equal_self k)
lookup-store k d ((j, e) ∷ ds) = elim (Bool-cases (equal j k)) [
  | inl same ↦ rw same (rw (equal_self k))
  | inr other ↦ rw other (rw other (lookup-store k d ds))
]

erase-store :
    (k : Bytes) (d : Download) (ds : List (Bytes × Download)) → erase k (store k d ds) ≡ erase k ds
unfolding erase store
erase-store k d [] = rw (equal_self k)
erase-store k d ((j, e) ∷ ds) = elim (Bool-cases (equal j k)) [
  | inl same ↦ rw same (rw (equal_self k))
  | inr other ↦ rw other (rw other (ap (◌∷◌ (j, e)) (erase-store k d ds)))
]

module _ {R Image Cert : Type 0} (qt : Qt R Image Cert) where
  -- The client reads a chunk as the terminal built it.
  pub handle_file_data-chunk_payload :
      (c : Client Image Cert) (name bytes : Bytes) (idx total : ℕ)
      → length name < 256
      → total < 2 ^ 32
      → handle_file_data qt c (chunk_payload name idx total bytes)
        ≡ add_chunk c (qt.from_utf8 name) total bytes
  unfolding handle_file_data chunk_payload put_u32 get_u32
  handle_file_data-chunk_payload c name bytes idx total h k =
      let n : length name % 256 ≡ length name = omega arith in
      ground (
        arith,
        n,
        length-append name bytes,
        take-append name bytes,
        drop-append name bytes,
        drop-add 9 (length name) (chunk_payload name idx total bytes),
      )

  abbrev pub receive_all : Client Image Cert → List Bytes → Client Image Cert
  receive_all c [] = c
  receive_all c (p ∷ ps) = receive_all (handle_file_data qt c p) ps

  -- What the client holds of a file of which it has the chunks below `idx`.
  pub record Holds (d : Download) (total : ℕ) (bytes : Bytes) (idx : ℕ) : Type 0 where
    pub announced : (d.total ≡ 0) ⊎ (d.total ≡ total)
    pub counted : d.received ≡ idx
    pub held : d.bytes ≡ take (idx * chunk_size) bytes

  next_chunk :
      (bytes : Bytes) (idx : ℕ)
      → take (idx * chunk_size) bytes
          ++ take (min chunk_size (length bytes - idx * chunk_size)) (drop (idx * chunk_size) bytes)
        ≡ take ((idx + 1) * chunk_size) bytes
  next_chunk bytes idx =
      let ys = drop (idx * chunk_size) bytes in
      let n : length bytes - idx * chunk_size ≡ length ys =
        sym (length-drop (idx * chunk_size) bytes) in
      let s : idx * chunk_size + chunk_size ≡ (idx + 1) * chunk_size = omega arith in
      rw (n, take-min chunk_size ys, take-add (idx * chunk_size) chunk_size bytes, s) refl

  extend-Holds :
      (d : Download) (total : ℕ) (bytes : Bytes) (idx : ℕ)
      → total < 2 ^ 32
      → idx < total
      → Holds d total bytes idx
      → Holds
          (extend d total (
            take
              (min chunk_size (length bytes - idx * chunk_size))
              (drop (idx * chunk_size) bytes)))
          total
          bytes
          (idx + 1)
  unfolding extend
  extend-Holds d total bytes idx k h v = record {
    announced = ground arith;
    counted = ground arith;
    held =
        ap
          (λ b.
            b
            ++ take (min chunk_size (length bytes - idx * chunk_size))
                (drop (idx * chunk_size) bytes))
          v.held
        ∙ next_chunk bytes idx;
  }

  extend-total :
      (d : Download) (total : ℕ) (bytes data' : Bytes) (idx : ℕ)
      → Holds d total bytes idx
      → (extend d total data').total ≡ total
  unfolding extend
  extend-total d total bytes data' idx v = ground arith

  add_chunk_last :
      (c : Client Image Cert) (name data' : Bytes) (total : ℕ)
      → total ≢ 0
      → let d = extend (entry (lookup name c.downloads)) total data' in
        d.total ≤ d.received
        → add_chunk c name total data'
          ≡ record (emit c (file_downloaded name d.bytes)) { downloads = erase name c.downloads }
  unfolding add_chunk store_chunk
  add_chunk_last c name data' total ne h = ground arith

  add_chunk_more :
      (c : Client Image Cert) (name data' : Bytes) (total : ℕ)
      → total ≢ 0
      → let d = extend (entry (lookup name c.downloads)) total data' in
        d.received < d.total
        → add_chunk c name total data' ≡ record c { downloads = store name d c.downloads }
  unfolding add_chunk store_chunk
  add_chunk_more c name data' total ne h = ground arith

  pub receive_chunks :
      (c : Client Image Cert) (name bytes : Bytes) (total k idx : ℕ)
      → length name < 256
      → total < 2 ^ 32
      → idx + suc k ≡ total
      → length bytes ≤ total * chunk_size
      → Holds (entry (lookup (qt.from_utf8 name) c.downloads)) total bytes idx
      → receive_all c (chunk_payloads name total bytes (suc k) idx)
        ≡ record (emit c (file_downloaded (qt.from_utf8 name) bytes)) {
          downloads = erase (qt.from_utf8 name) c.downloads;
        }
  receive_chunks c name bytes total zero idx n t e l v =
      let o = entry (lookup (qt.from_utf8 name) c.downloads) in
      let piece =
        take (min chunk_size (length bytes - idx * chunk_size)) (drop (idx * chunk_size) bytes) in
      let w = extend-Holds o total bytes idx t (omega arith) v in
      let whole : (extend o total piece).bytes ≡ bytes =
        w.held ∙ take-all ((idx + 1) * chunk_size) bytes (omega arith) in
      handle_file_data-chunk_payload c name piece idx total n t
      ∙ add_chunk_last c (qt.from_utf8 name) piece total (omega arith)
          (omega (arith, w.counted, extend-total o total bytes piece idx v))
      ∙ ap
          (λ b. record (emit c (file_downloaded (qt.from_utf8 name) b)) {
            downloads = erase (qt.from_utf8 name) c.downloads;
          })
          whole
  receive_chunks c name bytes total (suc k) idx n t e l v =
      let o = entry (lookup (qt.from_utf8 name) c.downloads) in
      let piece =
        take (min chunk_size (length bytes - idx * chunk_size)) (drop (idx * chunk_size) bytes) in
      let w = extend-Holds o total bytes idx t (omega arith) v in
      let d = extend o total piece in
      let c' : Client Image Cert = record c {
        downloads = store (qt.from_utf8 name) d c.downloads;
      } in
      let here : entry (lookup (qt.from_utf8 name) c'.downloads) ≡ d =
        ap entry (lookup-store (qt.from_utf8 name) d c.downloads) ∙ unfold entry in refl in
      ap (λ x. receive_all x (chunk_payloads name total bytes (suc k) (idx + 1)))
        (handle_file_data-chunk_payload c name piece idx total n t
          ∙ add_chunk_more c (qt.from_utf8 name) piece total (omega arith)
              (omega (arith, w.counted, extend-total o total bytes piece idx v)))
      ∙ receive_chunks c' name bytes total k (idx + 1) n t (omega arith) l (rw here w)
      ∙ ap (λ ds. record (emit c (file_downloaded (qt.from_utf8 name) bytes)) { downloads = ds })
          (erase-store (qt.from_utf8 name) d c.downloads)
