-- ===== src/Stream/Chunks.antt =====
-- The framing loop does not depend on how the bytes of the stream are cut into reads.
use mathlib.Core.List.{flatten}
use qt_s5p6818_face_tracking.Base.{
  ℕ, zero, suc, ◌≤◌, ◌<◌, ◌≡◌, refl, AreBytes, All-take, All-drop, subst, sym, ◌∙◌, append_assoc,
  append-nil, ap, ◌⊎◌, inl, inr, Bool, true, false, List, [], ◌∷◌, ◌++◌, Bytes, length,
  length-append, length-drop, drop, take-append_of_le, drop-append_of_le, get_or, ltb, ge→ltb,
  ltb→ge, Bool-cases, Option-cases, arith,
}
use qt_s5p6818_face_tracking.Protocol.{Header, decode_header, get_u16, get_u32, header_size}
use qt_s5p6818_face_tracking.Stream.{
  Scan, Refusal, need_more, refused, message, scan_header, scan, Drained, ended, waiting, drain,
  drain_all, resume, resume_all,
}

get_or-append : (p q : Bytes) (i : ℕ) → i < length p → get_or (p ++ q) i 0 ≡ get_or p i 0
get_or-append [] q i h = absurd (omega arith)
get_or-append (x ∷ p) q zero h = refl
get_or-append (x ∷ p) q (suc i) h = get_or-append p q i (omega arith)

decode_header-append :
    (p q : Bytes) → header_size ≤ length p → decode_header (p ++ q) ≡ decode_header p
unfolding decode_header get_u16 get_u32
decode_header-append (a ∷ b ∷ c ∷ d ∷ e ∷ f ∷ g ∷ i ∷ j ∷ k ∷ l ∷ m ∷ p) q h = ground arith
decode_header-append _ q h = absurd (omega arith)

-- A round that needs no more bytes does not look past its message.
abbrev Extends : Scan → Scan → Bytes → Type 0
Extends need_more s q = Unit
Extends (refused why) s q = s ≡ refused why
Extends (message t payload rest) s q = s ≡ message t payload (rest ++ q)

scan_header-Extends :
    (limit : ℕ) (p q : Bytes) (h : Header)
    → header_size ≤ length p
    → Extends (scan_header limit p h) (scan_header limit (p ++ q) h) q
unfolding scan_header
scan_header-Extends limit p q h enough = ground (
  arith,
  length-append p q,
  length-drop header_size p,
  drop-append_of_le header_size p q,
  take-append_of_le h.length (drop header_size p) q,
  drop-append_of_le h.length (drop header_size p) q,
)

scan-Extends : (limit : ℕ) (p q : Bytes) → Extends (scan limit p) (scan limit (p ++ q)) q
unfolding scan
scan-Extends limit p q = elim (Bool-cases (ltb (length p) header_size)) [
  | inl short ↦ rw short tt
  | inr enough ↦
      rw
        (
          enough,
          ge→ltb (length (p ++ q)) header_size
              (omega (arith, length-append p q, ltb→ge _ _ enough)),
          decode_header-append p q (ltb→ge _ _ enough),
        )
        (elim (Option-cases (decode_header p)) [
          | inl bad ↦ rw bad refl
          | inr (h, good) ↦ rw good (scan_header-Extends limit p q h (ltb→ge _ _ enough))
        ])
]

-- A whole message at the front of a buffer is there whatever comes behind it.
pub scan-message :
    (limit : ℕ) (p q : Bytes) (t : ℕ) (payload rest : Bytes)
    → scan limit p ≡ message t payload rest
    → scan limit (p ++ q) ≡ message t payload (rest ++ q)
scan-message limit p q t payload rest e = rw e at (scan-Extends limit p q)

abbrev rest_length : Scan → ℕ
rest_length (message t payload rest) = length rest
rest_length _ = 0

abbrev payload_of : Scan → Bytes
payload_of (message t payload rest) = payload
payload_of _ = []

scan_header-length :
    (limit : ℕ) (p : Bytes) (h : Header) {t : ℕ} {payload rest : Bytes}
    → header_size ≤ length p
    → scan_header limit p h ≡ message t payload rest
    → length rest < length p
unfolding scan_header
scan_header-length limit p h enough e =
    ground (
      arith,
      ap rest_length e,
      length-drop header_size p,
      length-drop h.length (drop header_size p),
    )

-- A message takes its header off the buffer at least.
pub scan-length :
    (limit : ℕ) (p : Bytes) {t : ℕ} {payload rest : Bytes}
    → scan limit p ≡ message t payload rest
    → length rest < length p
unfolding scan
scan-length limit p e = elim (Bool-cases (ltb (length p) header_size)) [
  | inl short ↦ absurd (cc (rw short at e))
  | inr enough ↦ elim (Option-cases (decode_header p)) [
    | inl bad ↦ absurd (cc (rw (enough, bad) at e))
    | inr (h, good) ↦ scan_header-length limit p h (ltb→ge _ _ enough) (rw (enough, good) at e)
  ]
]

scan_header-AreBytes :
    (limit : ℕ) (p : Bytes) (h : Header) {t : ℕ} {payload rest : Bytes}
    → AreBytes p
    → scan_header limit p h ≡ message t payload rest
    → AreBytes payload
unfolding scan_header
scan_header-AreBytes limit p h b e =
    subst AreBytes (ground (arith, ap payload_of e))
      (All-take (λ x. x < 256) h.length _ (All-drop (λ x. x < 256) header_size p b))

-- The payload of a message in bytes is bytes.
pub scan-AreBytes :
    (limit : ℕ) (p : Bytes) {t : ℕ} {payload rest : Bytes}
    → AreBytes p
    → scan limit p ≡ message t payload rest
    → AreBytes payload
unfolding scan
scan-AreBytes limit p b e = elim (Bool-cases (ltb (length p) header_size)) [
  | inl short ↦ absurd (cc (rw short at e))
  | inr enough ↦ elim (Option-cases (decode_header p)) [
    | inl bad ↦ absurd (cc (rw (enough, bad) at e))
    | inr (h, good) ↦ scan_header-AreBytes limit p h b (rw (enough, good) at e)
  ]
]

pub Scan-cases :
    (s : Scan)
    → (s ≡ need_more)
      ⊎ ((why : Refusal) × (s ≡ refused why))
      ⊎ ((t : ℕ) × (payload : Bytes) × (rest : Bytes) × (s ≡ message t payload rest))
Scan-cases need_more = inl refl
Scan-cases (refused why) = inr (inl (why, refl))
Scan-cases (message t payload rest) = inr (inr (t, payload, rest, refl))

module _ {ℓ} {S : Type ℓ} (limit : ℕ) (refuse : S → Refusal → S)
    (handle : S → ℕ → Bytes → S × Bool) where
  -- One round, by what the scan says.
  pub drain_need_more :
      (n : ℕ) (s : S) (p : Bytes)
      → scan limit p ≡ need_more
      → drain limit refuse handle (suc n) s p ≡ waiting s p
  unfolding drain
  drain_need_more n s p e = rw (e, drain)

  pub drain_refused :
      (n : ℕ) (s : S) (p : Bytes) (why : Refusal)
      → scan limit p ≡ refused why
      → drain limit refuse handle (suc n) s p ≡ ended (refuse s why)
  unfolding drain
  drain_refused n s p why e = rw (e, drain)

  pub drain_stop :
      (n : ℕ) (s : S) (p : Bytes) {t : ℕ} {payload rest : Bytes}
      → scan limit p ≡ message t payload rest
      → (handle s t payload).1 ≡ false
      → drain limit refuse handle (suc n) s p ≡ ended (handle s t payload).0
  unfolding drain
  drain_stop n s p e stop = rw (e, stop, drain)

  pub drain_go :
      (n : ℕ) (s : S) (p : Bytes) {t : ℕ} {payload rest : Bytes}
      → scan limit p ≡ message t payload rest
      → (handle s t payload).1 ≡ true
      → drain limit refuse handle (suc n) s p
        ≡ drain limit refuse handle n (handle s t payload).0 rest
  unfolding drain
  drain_go n s p e go = rw (e, drain) (rw go)

  -- Fuel above the buffer's length is as good as any other.
  pub drain_fuel :
      (n m : ℕ) (s : S) (p : Bytes)
      → length p < n
      → length p < m
      → drain limit refuse handle n s p ≡ drain limit refuse handle m s p
  drain_fuel zero m s p h k = absurd (omega arith)
  drain_fuel (suc n) zero s p h k = absurd (omega arith)
  drain_fuel (suc n) (suc m) s p h k = elim (Scan-cases (scan limit p)) [
    | inl e ↦ drain_need_more n s p e ∙ sym (drain_need_more m s p e)
    | inr (inl (why, e)) ↦ drain_refused n s p why e ∙ sym (drain_refused m s p why e)
    | inr (inr (t, payload, rest, e)) ↦ elim (Bool-cases (handle s t payload).1) [
      | inl go ↦
          drain_go n s p e go
          ∙ drain_fuel n m (handle s t payload).0 rest (omega (arith, scan-length limit p e))
              (omega (arith, scan-length limit p e))
          ∙ sym (drain_go m s p e go)
      | inr stop ↦ drain_stop n s p e stop ∙ sym (drain_stop m s p e stop)
    ]
  ]

  drain-append :
      (n : ℕ) (s : S) (p q : Bytes)
      → length p < n
      → drain_all limit refuse handle s (p ++ q)
        ≡ resume limit refuse handle (drain limit refuse handle n s p) q
  unfolding drain_all resume
  drain-append zero s p q h = absurd (omega arith)
  drain-append (suc n) s p q h = elim (Scan-cases (scan limit p)) [
    | inl e ↦ rw (drain_need_more n s p e)
    | inr (inl (why, e)) ↦
        rw (drain_refused n s p why e)
          (drain_refused _ s (p ++ q) why (rw e at (scan-Extends limit p q)))
    | inr (inr (t, payload, rest, e)) ↦
        let e' : scan limit (p ++ q) ≡ message t payload (rest ++ q) =
          rw e at (scan-Extends limit p q) in
        elim (Bool-cases (handle s t payload).1) [
          | inl go ↦ rw (drain_go n s p e go) (
              drain_go _ s (p ++ q) e' go
              ∙ drain_fuel (length (p ++ q)) (suc (length (rest ++ q))) _ _
                  (scan-length limit (p ++ q) e') (omega arith)
              ∙ drain-append n (handle s t payload).0 rest q (omega (arith, scan-length limit p e)))
          | inr stop ↦ rw (drain_stop n s p e stop) (drain_stop _ s (p ++ q) e' stop)
        ]
  ]

  -- Reading two pieces of a stream one after the other is reading them at once.
  pub resume-append :
      (d : Drained S) (p q : Bytes)
      → resume limit refuse handle (resume limit refuse handle d p) q
        ≡ resume limit refuse handle d (p ++ q)
  resume-append (ended s) p q = unfold resume in refl
  resume-append (waiting s bs) p q =
      unfold resume drain_all in
      (sym (drain-append (suc (length (bs ++ p))) s (bs ++ p) q (omega arith))
        ∙ ap (drain_all limit refuse handle s) (append_assoc bs p q))

  -- The reads of a connection have the same effect as one read of all their bytes.
  pub resume_all-flatten :
      (d : Drained S) (q : Bytes) (qs : List Bytes)
      → resume_all limit refuse handle d (q ∷ qs) ≡ resume limit refuse handle d (q ++ flatten qs)
  unfolding resume_all flatten
  resume_all-flatten d q [] = ap (resume limit refuse handle d) (sym (append-nil q))
  resume_all-flatten d q (r ∷ qs) =
      resume_all-flatten (resume limit refuse handle d q) r qs ∙ resume-append d q (r ++ flatten qs)
