-- ===== src/Stream.antt =====
-- The framing loop that terminal/src/net/ClientSession.cpp (`readAndDispatch`) and
-- pc-client/src/net/TcpClient.cpp (`processBuffer`) both run over their receive buffer: take one
-- SEC1 message after another off its front, hand each to a handler, keep the unfinished rest.
-- The two differ in the handler and in the cap on a message's length. `off` is the part of the
-- buffer that has been passed; the model drops it at once.
pub mod Chunks
pub mod Messages
pub mod Invariant
pub mod Settled
use qt_s5p6818_face_tracking.Base.{
  ℕ, zero, suc, ◌+◌, Bool, true, false, List, [], ◌∷◌, ◌++◌, Bytes, Option, none, some, length,
  take, drop, ltb, if◌then◌else◌,
}
use qt_s5p6818_face_tracking.Protocol.{Header, decode_header, header_size}

pub data Refusal : Type 0 where
  bad_magic oversize : Refusal

-- What one round of the loop sees at the front of the buffer.
pub data Scan : Type 0 where
  need_more : Scan
  refused : Refusal → Scan
  message : ℕ → Bytes → Bytes → Scan

scan_header : ℕ → Bytes → Header → Scan
scan_header limit bs h =
    if ltb limit h.length
    then refused oversize
    else if ltb (length bs) (header_size + h.length)
    then need_more
    else message h.type (take h.length (drop header_size bs)) (drop h.length (drop header_size bs))

unfoldable pub scan : ℕ → Bytes → Scan
unfolding scan_header
scan limit bs =
    if ltb (length bs) header_size
    then need_more
    else elim (decode_header bs) [ none ↦ refused bad_magic | some h ↦ scan_header limit bs h ]

-- What the loop leaves: the state, and the bytes not yet used unless the connection is dropped.
pub data Drained {ℓ} (S : Type ℓ) : Type ℓ where
  waiting : S → Bytes → Drained S
  ended : S → Drained S

module _ {ℓ} {S : Type ℓ} where
  -- A handler gives the new state, and false where the code returns false. `refuse` is what the
  -- code does to its state before it gives up at a bad header.
  unfoldable pub drain :
      ℕ → (S → Refusal → S) → (S → ℕ → Bytes → S × Bool) → ℕ → S → Bytes → Drained S
  drain limit refuse handle zero s bs = waiting s bs
  drain limit refuse handle (suc fuel) s bs = elim (scan limit bs) [
    | need_more ↦ waiting s bs
    | refused why ↦ ended (refuse s why)
    | message t payload rest ↦
        let (s', go) = handle s t payload in
        elim go [ true ↦ drain limit refuse handle fuel s' rest | false ↦ ended s' ]
  ]

  -- The loop over a whole buffer: every message takes a header at least, so its length is enough.
  unfoldable pub drain_all :
      ℕ → (S → Refusal → S) → (S → ℕ → Bytes → S × Bool) → S → Bytes → Drained S
  drain_all limit refuse handle s bs = drain limit refuse handle (suc (length bs)) s bs

  -- One more read of the stream, appended to what the last one left.
  unfoldable pub resume :
      ℕ → (S → Refusal → S) → (S → ℕ → Bytes → S × Bool) → Drained S → Bytes → Drained S
  resume limit refuse handle (waiting s bs) q = drain_all limit refuse handle s (bs ++ q)
  resume limit refuse handle (ended s) q = ended s

  -- All the reads of a connection.
  unfoldable pub resume_all :
      ℕ → (S → Refusal → S) → (S → ℕ → Bytes → S × Bool) → Drained S → List Bytes → Drained S
  resume_all limit refuse handle d [] = d
  resume_all limit refuse handle d (q ∷ qs) =
      resume_all limit refuse handle (resume limit refuse handle d q) qs
