-- ===== src/Video/Turns.antt =====
-- One turn of the vision loop or of the session of terminal/src/net/ClientSession.cpp.
use qt_s5p6818_face_tracking.Base.{
  if_lem, ◌≢◌, subst, ℕ, suc, ◌+◌, ◌-◌, ◌^◌, ◌≤◌, ◌<◌, ◌≡◌, ◌⊎◌, refl, sym, ap, ◌∙◌, inl, inr, Bool,
  true, false, List, [], ◌∷◌, ◌++◌, Option, none, some, length, All, ◌==◌, arith,
}
use qt_s5p6818_face_tracking.Core.Hub.{Frame, latest, publish}
use qt_s5p6818_face_tracking.Session.{Session, send, send_frame_if_new}
use qt_s5p6818_face_tracking.Vision.{Capture, see, take_in}
use qt_s5p6818_face_tracking.Video.{
  Turn, sees, pushes, Video, frame_of, published, video_message, In, turn,
}

-- `low` is the first number that may be sent behind `last`.
abbrev pub IsNext : ℕ → ℕ → Type 0
IsNext last low = ((last ≡ 2 ^ 32 - 1) × (low ≡ 0)) ⊎ (low ≡ suc last)

abbrev pub IsNewest : {Image : Type 0} → ℕ → ℕ → Option (Frame Image) → Type 0
IsNewest n low none = low ≤ n
IsNewest n low (some f) = (f.seq < n) × (low ≤ suc f.seq)

-- The frames that may still be sent: the newest and those to come.
abbrev pub pool : {Image : Type 0} → Option (Frame Image) → List (Frame Image) → List (Frame Image)
pool none fs = fs
pool (some f) fs = f ∷ fs

In-pool :
    {Image : Type 0} (hub : Option (Frame Image)) (f : Frame Image) (ps : List (Frame Image))
    → In f ps
    → In f (pool hub ps)
In-pool none f ps i = i
In-pool (some g) f ps i = inr i

pub All-pool :
    {Image : Type 0} (hub : Option (Frame Image)) (ps fs : List (Frame Image))
    → All (λ f. In f ps) fs
    → All (λ f. In f (pool hub ps)) fs
All-pool hub ps [] a = tt
All-pool hub ps (f ∷ fs) a = (In-pool hub f ps a.0, All-pool hub ps fs a.1)

Newest-le : {Image : Type 0} (n low : ℕ) (hub : Option (Frame Image)) → IsNewest n low hub → low ≤ n
Newest-le n low none h = h
Newest-le n low (some f) h = omega arith

pub published_misses :
    {Image : Type 0} (n : ℕ) (c : Capture Image) (ts : List (Turn Image))
    → c.grabbed ≡ false
    → published n (sees c ∷ ts) ≡ published n ts
published_misses n c ts e = rw e refl

module _ {R D Image : Type 0} where
  -- What a push does: nothing, or it sends a frame that is not the last one sent.
  abbrev pub Pushes : Session R D → Option (Frame Image) → Session R D → Type 0
  Pushes s hub s' =
      (s' ≡ s)
      ⊎ ((f : Frame Image) × (hub ≡ some f)
          × (f.seq ≢ s.last_sent_seq)
          × (s'.link.sent ≡ s.link.sent ++ video_message f ∷ [])
          × (s'.last_sent_seq ≡ f.seq))

  send_frame_if_new-Pushes :
      (s : Session R D) (hub : Option (Frame Image)) → Pushes s hub (send_frame_if_new s hub).0
  unfolding send_frame_if_new send
  send_frame_if_new-Pushes s none = inl refl
  send_frame_if_new-Pushes s (some f) =
      if_lem {A = Session R D × Bool} (λ r. Pushes s (some f) r.0) (length f.jpeg == 0) (s, true) _
        (λ e. inl refl)
        (λ e.
          if_lem {A = Session R D × Bool} (λ r. Pushes s (some f) r.0) (f.seq == s.last_sent_seq)
            (s, true) _ (λ g. inl refl) (λ g. inr (f, refl, ground arith, refl, refl)))

  pub record IsAt (n low : ℕ) (d : Video R D Image) : Type 0 where
    pub numbered : d.vision.seq ≡ n
    pub follows : IsNext d.session.last_sent_seq low
    pub newest : IsNewest n low d.vision.hub

  pub same-IsAt :
      (n low : ℕ) (d e : Video R D Image)
      → e.vision ≡ d.vision
      → e.session ≡ d.session
      → IsAt n low d
      → IsAt n low e
  same-IsAt n low d e vision session at = record {
    numbered = ap (λ v. v.seq) vision ∙ at.numbered;
    follows = subst (λ s. IsNext s.last_sent_seq low) (sym session) at.follows;
    newest = subst (λ v. IsNewest n low v.hub) (sym vision) at.newest;
  }

  pub pushed-IsAt :
      (n low : ℕ) (d e : Video R D Image) (f : Frame Image)
      → e.vision ≡ d.vision
      → d.vision.hub ≡ some f
      → f.seq ≢ d.session.last_sent_seq
      → e.session.last_sent_seq ≡ f.seq
      → IsAt n low d
      → IsAt n (suc f.seq) e × (low ≤ f.seq)
  pushed-IsAt n low d e f vision hub fresh last at =
      let newest : IsNewest n low (some f) = subst (IsNewest n low) hub at.newest in
      (
        record {
          numbered = ap (λ v. v.seq) vision ∙ at.numbered;
          follows = inr (ap suc (sym last));
          newest =
              subst (IsNewest n (suc f.seq)) (sym (ap (λ v. v.hub) vision ∙ hub))
                (newest.0, omega arith);
        },
        elim at.follows [
          | inl (never, first) ↦ omega (arith, first)
          | inr next ↦ ground (arith, newest.1, fresh, next)
        ],
      )

module _ {R D Image : Type 0} (auto_snapshot : Bool) (interval_ms : ℕ) where
  pub turn_pushes :
      (d : Video R D Image)
      → ((turn auto_snapshot interval_ms d pushes).vision ≡ d.vision)
        × Pushes d.session d.vision.hub (turn auto_snapshot interval_ms d pushes).session
  unfolding turn latest
  turn_pushes d =
      if_lem {A = Video R D Image}
        (λ e. (e.vision ≡ d.vision) × Pushes d.session d.vision.hub e.session) d.alive _ d
        (λ e. (refl, send_frame_if_new-Pushes d.session d.vision.hub)) (λ e. (refl, inl refl))

  pub turn_sees :
      (n low : ℕ) (d : Video R D Image) (c : Capture Image)
      → IsAt n low d
      → n + 1 < 2 ^ 32
      → c.grabbed ≡ true
      → (IsAt (suc n) low (turn auto_snapshot interval_ms d (sees c)))
        × ((turn auto_snapshot interval_ms d (sees c)).vision.hub ≡ some (frame_of n c))
  unfolding turn see take_in publish
  turn_sees n low d c at h e =
      let hub : (turn auto_snapshot interval_ms d (sees c)).vision.hub ≡ some (frame_of n c) =
        rw e (ap (λ k. some (frame_of k c)) at.numbered) in
      let seq : (turn auto_snapshot interval_ms d (sees c)).vision.seq ≡ suc n =
        rw e (omega (arith, at.numbered)) in
      (
        record {
          numbered = seq;
          follows = at.follows;
          newest =
              subst (IsNewest (suc n) low) (sym hub)
                (omega arith, omega (arith, Newest-le n low d.vision.hub at.newest));
        },
        hub,
      )

  pub turn_misses :
      (d : Video R D Image) (c : Capture Image)
      → c.grabbed ≡ false
      → turn auto_snapshot interval_ms d (sees c) ≡ d
  unfolding turn see
  turn_misses d c e = rw e refl
