-- ===== src/Stream/Invariant.antt =====
-- The framing loop keeps what its handler keeps.
use qt_s5p6818_face_tracking.Base.{ℕ, zero, suc, Bool, true, false, Bytes}
use qt_s5p6818_face_tracking.Stream.{
  Refusal, Scan, need_more, refused, message, scan, Drained, waiting, ended, drain, drain_all,
}

module _ {ℓ} {S : Type ℓ} where
  -- The state with which the loop stops.
  abbrev pub state_of : Drained S → S
  state_of (waiting s bs) = s
  state_of (ended s) = s

  module _ (limit : ℕ) (refuse : S → Refusal → S) (handle : S → ℕ → Bytes → S × Bool)
      (P : S → Type 0) (refuse-P : (s : S) (why : Refusal) → P s → P (refuse s why))
      (handle-P : (s : S) (t : ℕ) (payload : Bytes) → P s → P (handle s t payload).0) where
    handled-keeps :
        (fuel : ℕ) (s : S) (go : Bool) (rest : Bytes)
        → P s
        → P (state_of (drain limit refuse handle fuel s rest))
        → P (state_of (elim go [ true ↦ drain limit refuse handle fuel s rest | false ↦ ended s ]))
    handled-keeps fuel s true rest h k = k
    handled-keeps fuel s false rest h k = h

    scanned-keeps :
        (fuel : ℕ) (s : S) (bs : Bytes) (x : Scan)
        → P s
        → ((s' : S) (rest : Bytes) → P s' → P (state_of (drain limit refuse handle fuel s' rest)))
        → P (
            state_of (elim x [
              | need_more ↦ waiting s bs
              | refused why ↦ ended (refuse s why)
              | message t payload rest ↦
                  let (s', go) = handle s t payload in
                  elim go [ true ↦ drain limit refuse handle fuel s' rest | false ↦ ended s' ]
            ]))
    scanned-keeps fuel s bs need_more h k = h
    scanned-keeps fuel s bs (refused why) h k = refuse-P s why h
    scanned-keeps fuel s bs (message t payload rest) h k =
        let (s', go) = handle s t payload in
        let h' = handle-P s t payload h in handled-keeps fuel s' go rest h' (k s' rest h')

    drain-keeps :
        (fuel : ℕ) (s : S) (bs : Bytes) → P s → P (state_of (drain limit refuse handle fuel s bs))
    unfolding drain
    drain-keeps zero s bs h = h
    drain-keeps (suc fuel) s bs h =
        scanned-keeps fuel s bs (scan limit bs) h (λ s' rest k. drain-keeps fuel s' rest k)

    pub drain_all-keeps :
        (s : S) (bs : Bytes) → P s → P (state_of (drain_all limit refuse handle s bs))
    unfolding drain_all
    drain_all-keeps s bs h = drain-keeps _ s bs h
