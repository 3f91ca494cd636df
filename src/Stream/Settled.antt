-- ===== src/Stream/Settled.antt =====
-- The framing loop of terminal/src/net/ClientSession.cpp and pc-client/src/net/TcpClient.cpp comes to
-- its end: its fuel, which stands for `while`, is enough.
use qt_s5p6818_face_tracking.Base.{
  ℕ, zero, suc, ◌<◌, ◌≡◌, subst, sym, inl, inr, Bool, Bytes, length, Bool-cases, arith,
}
use qt_s5p6818_face_tracking.Stream.{
  Refusal, need_more, scan, Drained, ended, waiting, drain, drain_all,
}
use qt_s5p6818_face_tracking.Stream.Chunks.{
  Scan-cases, drain_need_more, drain_refused, drain_stop, drain_go, scan-length,
}

module _ {ℓ} {S : Type ℓ} (limit : ℕ) (refuse : S → Refusal → S)
    (handle : S → ℕ → Bytes → S × Bool) where
  -- Where the loop stops for more bytes, no message and no bad header is left at the front.
  abbrev pub IsSettled : Drained S → Type 0
  IsSettled (waiting s rest) = scan limit rest ≡ need_more
  IsSettled (ended s) = Unit

  drain-IsSettled :
      (n : ℕ) (s : S) (bs : Bytes) → length bs < n → IsSettled (drain limit refuse handle n s bs)
  drain-IsSettled zero s bs h = absurd (omega arith)
  drain-IsSettled (suc n) s bs h = elim (Scan-cases (scan limit bs)) [
    | inl e ↦ subst IsSettled (sym (drain_need_more limit refuse handle n s bs e)) e
    | inr (inl (why, e)) ↦ subst IsSettled (sym (drain_refused limit refuse handle n s bs why e)) tt
    | inr (inr (t, payload, rest, e)) ↦ elim (Bool-cases (handle s t payload).1) [
      | inl go ↦
          subst IsSettled (sym (drain_go limit refuse handle n s bs e go))
            (drain-IsSettled n (handle s t payload).0 rest (omega (arith, scan-length limit bs e)))
      | inr stop ↦ subst IsSettled (sym (drain_stop limit refuse handle n s bs e stop)) tt
    ]
  ]

  -- The framing loop has fuel enough: where it stops for more bytes, no message and no bad header
  -- is left at the front of the buffer.
  pub drain_all-IsSettled : (s : S) (bs : Bytes) → IsSettled (drain_all limit refuse handle s bs)
  unfolding drain_all
  drain_all-IsSettled s bs = drain-IsSettled (suc (length bs)) s bs (omega arith)
