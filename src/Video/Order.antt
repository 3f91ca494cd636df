-- ===== src/Video/Order.antt =====
-- What a client gets of the frames that terminal/src/app/VisionThread.cpp publishes.
use qt_s5p6818_face_tracking.Base.{
  subst, ℕ, suc, ◌+◌, ◌-◌, ◌^◌, ◌≤◌, ◌<◌, ◌≡◌, refl, sym, ap, ◌∙◌, inl, inr, Bool, true, Bool-cases,
  List, [], ◌∷◌, ◌++◌, map, none, some, length, append-nil, append_assoc, All, arith,
}
use qt_s5p6818_face_tracking.Core.Hub.{Frame}
use qt_s5p6818_face_tracking.Session.{Session}
use qt_s5p6818_face_tracking.Vision.{Capture, Vision}
use qt_s5p6818_face_tracking.Video.{
  Turn, sees, pushes, Video, frame_of, published, video_message, Rises, In, turn, turns,
}
use qt_s5p6818_face_tracking.Video.Turns.{
  IsNewest, pool, All-pool, published_misses, IsAt, turn_pushes, turn_sees, turn_misses, same-IsAt,
  pushed-IsAt,
}

module _ {R D Image : Type 0} where
  -- What is sent from here on.
  abbrev SendsInOrder : ℕ → Video R D Image → Video R D Image → List (Frame Image) → Type 0
  SendsInOrder low d d' ps =
      (fs : List (Frame Image)) × (d'.session.link.sent
        ≡ d.session.link.sent ++ map video_message fs)
      × Rises low fs
      × All (λ f. In f (pool d.vision.hub ps)) fs

  before_same :
      (low : ℕ) (d e d' : Video R D Image) (ps : List (Frame Image))
      → e.vision ≡ d.vision
      → e.session ≡ d.session
      → SendsInOrder low e d' ps
      → SendsInOrder low d d' ps
  before_same low d e d' ps vision session (fs, sent, rises, all) = (
    fs,
    sent ∙ ap (λ s. s.link.sent ++ map video_message fs) session,
    rises,
    subst (λ v. All (λ f. In f (pool v.hub ps)) fs) vision all,
  )

  before_push :
      (low : ℕ) (d e d' : Video R D Image) (f : Frame Image) (ps : List (Frame Image))
      → e.vision ≡ d.vision
      → d.vision.hub ≡ some f
      → low ≤ f.seq
      → e.session.link.sent ≡ d.session.link.sent ++ video_message f ∷ []
      → SendsInOrder (suc f.seq) e d' ps
      → SendsInOrder low d d' ps
  before_push low d e d' f ps vision hub above pushed (fs, sent, rises, all) = (
    f ∷ fs,
    sent
        ∙ ap (λ l. l ++ map video_message fs) pushed
        ∙ append_assoc d.session.link.sent (video_message f ∷ []) (map video_message fs),
    (above, rises),
    (
      subst (λ o. In f (pool o ps)) (sym hub) (inl refl),
      subst (λ v. All (λ g. In g (pool v.hub ps)) fs) vision all,
    ),
  )

module _ {R D Image : Type 0} (auto_snapshot : Bool) (interval_ms : ℕ) where
  -- One turn before the others.
  before_sees :
      (n low : ℕ) (d d' : Video R D Image) (c : Capture Image) (ts : List (Turn Image))
      → c.grabbed ≡ true
      → (turn auto_snapshot interval_ms d (sees c)).vision.hub ≡ some (frame_of n c)
      → SendsInOrder low (turn auto_snapshot interval_ms d (sees c)) d' (published (suc n) ts)
      → SendsInOrder low d d' (published n (sees c ∷ ts))
  unfolding turn
  before_sees n low d d' c ts e hub (fs, sent, rises, all) = (
    fs,
    sent,
    rises,
    rw e (
        All-pool d.vision.hub (frame_of n c ∷ published (suc n) ts) fs
          (subst (λ o. All (λ f. In f (pool o (published (suc n) ts))) fs) hub all)),
  )

  turns-SendsInOrder :
      (n low : ℕ) (d : Video R D Image) (ts : List (Turn Image))
      → IsAt n low d
      → n + length ts < 2 ^ 32
      → SendsInOrder low d (turns auto_snapshot interval_ms d ts) (published n ts)
  unfolding turns
  turns-SendsInOrder n low d [] at h = ([], sym (append-nil d.session.link.sent), tt, tt)
  turns-SendsInOrder n low d (sees c ∷ ts) at h = elim (Bool-cases c.grabbed) [
    | inr e ↦
        let d' = turn auto_snapshot interval_ms d (sees c) in
        let same = turn_misses auto_snapshot interval_ms d c e in
        let vision = ap (λ x. x.vision) same in
        let session = ap (λ x. x.session) same in
        subst (SendsInOrder low d (turns auto_snapshot interval_ms d' ts))
          (sym (published_misses n c ts e))
          (before_same low d d' (turns auto_snapshot interval_ms d' ts) (published n ts) vision
            session
            (turns-SendsInOrder n low d' ts (same-IsAt n low d d' vision session at) (omega arith)))
    | inl e ↦
        let (at', hub) = turn_sees auto_snapshot interval_ms n low d c at (omega arith) e in
        before_sees n low d
          (turns auto_snapshot interval_ms (turn auto_snapshot interval_ms d (sees c)) ts) c ts e
          hub
          (turns-SendsInOrder (suc n) low (turn auto_snapshot interval_ms d (sees c)) ts at'
            (omega arith))
  ]
  turns-SendsInOrder n low d (pushes ∷ ts) at h =
      let e = turn auto_snapshot interval_ms d pushes in
      let (vision, pushed) = turn_pushes auto_snapshot interval_ms d in
      elim pushed [
        | inl same ↦
            before_same low d e (turns auto_snapshot interval_ms e ts) (published n ts) vision same
              (turns-SendsInOrder n low e ts (same-IsAt n low d e vision same at) (omega arith))
        | inr (f, hub, fresh, sent, last) ↦
            let (at', above) = pushed-IsAt n low d e f vision hub fresh last at in
            before_push low d e (turns auto_snapshot interval_ms e ts) f (published n ts) vision hub
              above sent (turns-SendsInOrder n (suc f.seq) e ts at' (omega arith))
      ]

  -- In every interleaving of fewer than 2 ^ 32 turns of the vision loop and of the session, from
  -- a start at which no frame has been published or sent: what the session sends are frames that
  -- the vision loop publishes in these turns, no frame twice and in the order of their numbers.
  pub turns_ordered :
      (v : Vision Image) (s : Session R D) (ts : List (Turn Image))
      → v.seq ≡ 0
      → v.hub ≡ none
      → s.last_sent_seq ≡ 2 ^ 32 - 1
      → length ts < 2 ^ 32
      → let d : Video R D Image = record { vision = v; session = s; alive = true } in
        (fs : List (Frame Image)) × ((turns auto_snapshot interval_ms d ts).session.link.sent
          ≡ s.link.sent ++ map video_message fs)
        × Rises 0 fs
        × All (λ f. In f (published 0 ts)) fs
  turns_ordered v s ts first none_yet never h =
      let d : Video R D Image = record { vision = v; session = s; alive = true } in
      let at : IsAt 0 0 d = record {
        numbered = first;
        follows = inl (never, refl);
        newest = subst (IsNewest 0 0) (sym none_yet) (omega arith);
      } in
      let (fs, sent, rises, all) = turns-SendsInOrder 0 0 d ts at (omega arith) in
      (fs, sent, rises, subst (λ o. All (λ f. In f (pool o (published 0 ts))) fs) none_yet all)
