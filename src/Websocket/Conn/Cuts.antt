-- ===== src/Websocket/Conn/Cuts.antt =====
-- terminal/src/net/WebSocketConn.cpp: the frames that `recv` takes in do not depend on how the bytes
-- of the connection are cut into reads.
use qt_s5p6818_face_tracking.Base.{
  ℕ, zero, suc, ◌≤◌, ◌<◌, ◌≡◌, refl, sym, ap, ◌∙◌, subst, inl, inr, Bool, true, false, Bool-cases,
  ◌++◌, Bytes, length, length-drop, drop, drop-append_of_le, append_assoc, if◌then◌else◌, arith,
}
use qt_s5p6818_face_tracking.Session.{send}
use qt_s5p6818_face_tracking.Websocket.{Frame, done, need_more, error, decode_frame}
use qt_s5p6818_face_tracking.Websocket.Conn.{
  Conn, max_payload, send_control, on_frame, drain_frames,
}
use qt_s5p6818_face_tracking.Websocket.Conn.Prefix.{decode_frame-Extends}
use qt_s5p6818_face_tracking.Websocket.Conn.Settled.{Parse-cases, decode_frame-Takes, Takes}

abbrev pub with_rx : Conn → Bytes → Conn
with_rx c rx = record c { rx = rx }

-- Bytes for the session that were there before.
abbrev pub prepend : Bytes → Conn → Conn
prepend a c = record c { app = a ++ c.app }

-- What reading `q` makes of a connection.
unfoldable pub after : Conn → Bytes → Conn
after c q =
    if c.closed
    then with_rx c (c.rx ++ q)
    else drain_frames (suc (length (c.rx ++ q))) (with_rx c (c.rx ++ q))

if_true {ℓ} : {A : Type ℓ} (b : Bool) (x y : A) → b ≡ true → (if b then x else y) ≡ x
if_true true x y e = refl
if_true false x y e = cc

if_false {ℓ} : {A : Type ℓ} (b : Bool) (x y : A) → b ≡ false → (if b then x else y) ≡ y
if_false true x y e = cc
if_false false x y e = refl

after_shut : (c : Conn) (q : Bytes) → c.closed ≡ true → after c q ≡ with_rx c (c.rx ++ q)
unfolding after
after_shut c q e = if_true c.closed _ _ e

pub after_open :
    (c : Conn) (q : Bytes)
    → c.closed ≡ false
    → after c q ≡ drain_frames (suc (length (c.rx ++ q))) (with_rx c (c.rx ++ q))
unfolding after
after_open c q e = if_false c.closed _ _ e

on_frame-with_rx :
    (c : Conn) (f : Frame) (r : Bytes) → on_frame (with_rx c r) f ≡ with_rx (on_frame c f) r
unfolding on_frame send_control send
on_frame-with_rx c f r = ground arith

on_frame-prepend :
    (a : Bytes) (c : Conn) (f : Frame) → on_frame (prepend a c) f ≡ prepend a (on_frame c f)
unfolding on_frame send_control send
on_frame-prepend a c f = ground (arith, append_assoc a c.app f.payload)

-- One round of the loop, by what the parse gives.
pub drain_more :
    (n : ℕ) (c : Conn) (p : Bytes)
    → decode_frame max_payload true p ≡ need_more
    → drain_frames (suc n) (with_rx c p) ≡ with_rx c p
unfolding drain_frames
drain_more n c p e = rw (e, drain_frames)

drain_error :
    (n : ℕ) (c : Conn) (p : Bytes)
    → decode_frame max_payload true p ≡ error
    → drain_frames (suc n) (with_rx c p) ≡ record (with_rx c p) { closed = true }
unfolding drain_frames
drain_error n c p e = rw (e, drain_frames)

drain_stop :
    (n : ℕ) (c : Conn) (p : Bytes) {f : Frame} {k : ℕ}
    → decode_frame max_payload true p ≡ done f k
    → (on_frame c f).closed ≡ true
    → drain_frames (suc n) (with_rx c p) ≡ with_rx (on_frame c f) (drop k p)
unfolding drain_frames
drain_stop n c p {f} {k} e stop =
    rw (e, drain_frames)
      (rw (on_frame-with_rx c f (drop k p)) (if_true (on_frame c f).closed _ _ stop))

drain_go :
    (n : ℕ) (c : Conn) (p : Bytes) {f : Frame} {k : ℕ}
    → decode_frame max_payload true p ≡ done f k
    → (on_frame c f).closed ≡ false
    → drain_frames (suc n) (with_rx c p) ≡ drain_frames n (with_rx (on_frame c f) (drop k p))
unfolding drain_frames
drain_go n c p {f} {k} e go =
    rw (e, drain_frames)
      (rw (on_frame-with_rx c f (drop k p)) (if_false (on_frame c f).closed _ _ go))

-- What is left behind a frame is shorter.
drop-shorter :
    (p : Bytes) {f : Frame} {k : ℕ}
    → decode_frame max_payload true p ≡ done f k
    → (k ≤ length p) × (length (drop k p) < length p)
drop-shorter p {f} {k} e =
    let takes : Takes p (done f k) = subst (Takes p) e (decode_frame-Takes max_payload true p) in
    (takes.1, omega (arith, takes.0, takes.1, length-drop k p))

-- Fuel above the buffer's length is as good as any other.
drain_fuel :
    (n m : ℕ) (c : Conn) (p : Bytes)
    → length p < n
    → length p < m
    → drain_frames n (with_rx c p) ≡ drain_frames m (with_rx c p)
drain_fuel zero m c p h k = absurd (omega arith)
drain_fuel (suc n) zero c p h k = absurd (omega arith)
drain_fuel (suc n) (suc m) c p h k = elim (Parse-cases (decode_frame max_payload true p)) [
  | inl e ↦ drain_more n c p e ∙ sym (drain_more m c p e)
  | inr (inl e) ↦ drain_error n c p e ∙ sym (drain_error m c p e)
  | inr (inr (f, (j, e))) ↦ elim (Bool-cases (on_frame c f).closed) [
    | inl stop ↦ drain_stop n c p e stop ∙ sym (drain_stop m c p e stop)
    | inr go ↦
        drain_go n c p e go
        ∙ drain_fuel n m (on_frame c f) (drop j p) (omega (arith, drop-shorter p e))
            (omega (arith, drop-shorter p e))
        ∙ sym (drain_go m c p e go)
  ]
]

drain-append :
    (n m : ℕ) (c : Conn) (p q : Bytes)
    → c.closed ≡ false
    → length p < n
    → length (p ++ q) < m
    → drain_frames m (with_rx c (p ++ q)) ≡ after (drain_frames n (with_rx c p)) q
drain-append zero m c p q o h k = absurd (omega arith)
drain-append (suc n) zero c p q o h k = absurd (omega arith)
drain-append (suc n) (suc m) c p q o h k =
    let longer = decode_frame-Extends max_payload true p q in
    elim (Parse-cases (decode_frame max_payload true p)) [
      | inl e ↦
          drain_fuel (suc m) (suc (length (p ++ q))) c (p ++ q) k (omega arith)
          ∙ sym (after_open (with_rx c p) q o)
          ∙ ap (λ d. after d q) (sym (drain_more n c p e))
      | inr (inl e) ↦
          drain_error m c (p ++ q) (rw e at longer)
          ∙ sym (after_shut (record (with_rx c p) { closed = true }) q refl)
          ∙ ap (λ d. after d q) (sym (drain_error n c p e))
      | inr (inr (f, (j, e))) ↦
          let e' : decode_frame max_payload true (p ++ q) ≡ done f j = rw e at longer in
          let kept : drop j (p ++ q) ≡ drop j p ++ q =
            drop-append_of_le j p q (drop-shorter p e).0 in
          elim (Bool-cases (on_frame c f).closed) [
            | inl stop ↦
                drain_stop m c (p ++ q) e' stop
                ∙ ap (with_rx (on_frame c f)) kept
                ∙ sym (after_shut (with_rx (on_frame c f) (drop j p)) q stop)
                ∙ ap (λ d. after d q) (sym (drain_stop n c p e stop))
            | inr go ↦
                drain_go m c (p ++ q) e' go
                ∙ ap (λ r. drain_frames m (with_rx (on_frame c f) r)) kept
                ∙ drain-append n m (on_frame c f) (drop j p) q go (omega (arith, drop-shorter p e))
                    (omega (arith, drop-shorter (p ++ q) e', ap length kept))
                ∙ ap (λ d. after d q) (sym (drain_go n c p e go))
          ]
    ]

-- Reading two pieces one after the other is reading them at once.
pub after-append : (c : Conn) (p q : Bytes) → after (after c p) q ≡ after c (p ++ q)
after-append c p q = elim (Bool-cases c.closed) [
  | inl shut ↦
      ap (λ d. after d q) (after_shut c p shut)
      ∙ after_shut (with_rx c (c.rx ++ p)) q shut
      ∙ ap (with_rx c) (append_assoc c.rx p q)
      ∙ sym (after_shut c (p ++ q) shut)
  | inr open_ ↦
      ap (λ d. after d q) (after_open c p open_)
      ∙ sym (
          drain-append (suc (length (c.rx ++ p))) (suc (length ((c.rx ++ p) ++ q))) c (c.rx ++ p) q
            open_ (omega arith) (omega arith))
      ∙ ap (λ r. drain_frames (suc (length r)) (with_rx c r)) (append_assoc c.rx p q)
      ∙ sym (after_open c (p ++ q) open_)
]

drain_frames-prepend :
    (n : ℕ) (a : Bytes) (c : Conn) (p : Bytes)
    → drain_frames n (with_rx (prepend a c) p) ≡ prepend a (drain_frames n (with_rx c p))
drain_frames-prepend zero a c p = unfold drain_frames in refl
drain_frames-prepend (suc n) a c p = elim (Parse-cases (decode_frame max_payload true p)) [
  | inl e ↦ drain_more n (prepend a c) p e ∙ ap (prepend a) (sym (drain_more n c p e))
  | inr (inl e) ↦ drain_error n (prepend a c) p e ∙ ap (prepend a) (sym (drain_error n c p e))
  | inr (inr (f, (j, e))) ↦
      let same = on_frame-prepend a c f in
      elim (Bool-cases (on_frame c f).closed) [
        | inl stop ↦
            drain_stop n (prepend a c) p e (ap (λ d. d.closed) same ∙ stop)
            ∙ ap (λ d. with_rx d (drop j p)) same
            ∙ ap (prepend a) (sym (drain_stop n c p e stop))
        | inr go ↦
            drain_go n (prepend a c) p e (ap (λ d. d.closed) same ∙ go)
            ∙ ap (λ d. drain_frames n (with_rx d (drop j p))) same
            ∙ drain_frames-prepend n a (on_frame c f) (drop j p)
            ∙ ap (prepend a) (sym (drain_go n c p e go))
      ]
]

-- Bytes that wait for the session do not change what a read does.
pub after-prepend :
    (a : Bytes) (c : Conn) (q : Bytes) → after (prepend a c) q ≡ prepend a (after c q)
after-prepend a c q = elim (Bool-cases c.closed) [
  | inl shut ↦ after_shut (prepend a c) q shut ∙ ap (prepend a) (sym (after_shut c q shut))
  | inr open_ ↦
      after_open (prepend a c) q open_
      ∙ drain_frames-prepend (suc (length (c.rx ++ q))) a c (c.rx ++ q)
      ∙ ap (prepend a) (sym (after_open c q open_))
]

-- A closed connection stays closed.
pub after-closed : (c : Conn) (q : Bytes) → c.closed ≡ true → (after c q).closed ≡ true
after-closed c q shut = ap (λ d. d.closed) (after_shut c q shut) ∙ shut
