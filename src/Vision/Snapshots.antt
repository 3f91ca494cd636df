-- ===== src/Vision/Snapshots.antt =====
-- The largest face, and when terminal/src/app/VisionThread.cpp saves a picture by itself.
use qt_s5p6818_face_tracking.Base.{
  ℕ, ◌+◌, ◌^◌, ◌≤◌, ◌<◌, ◌≡◌, refl, sym, ap, ◌∙◌, ◌⊎◌, inl, inr, Bool, true, List, [], ◌∷◌, ◌++◌,
  Bool-cases, arith, append_assoc, append-nil, subst,
}
use qt_s5p6818_face_tracking.Vision.{Capture, Vision, is_due, take_in, see, see_all}

-- Each time is at least the interval after the one before it, and the first after `last`.
abbrev pub Chain : ℕ → ℕ → List ℕ → Type 0
Chain interval last [] = Unit
Chain interval last (t ∷ ts) = (last + interval ≤ t) × Chain interval t ts

-- The clock does not run backwards, and stays below 2 ^ 64.
abbrev pub Rising : {Image : Type 0} → ℕ → List (Capture Image) → Type 0
Rising last [] = Unit
Rising last (c ∷ cs) = (last ≤ c.now) × (c.now < 2 ^ 64) × Rising c.now cs

Rising-le :
    {Image : Type 0} (a b : ℕ) (cs : List (Capture Image)) → a ≤ b → Rising b cs → Rising a cs
Rising-le a b [] h r = tt
Rising-le a b (c ∷ cs) h (p, q, r) = (omega arith, q, r)

module _ {Image : Type 0} (auto_snapshot : Bool) (interval : ℕ) where
  is_due-gap :
      (v : Vision Image) (c : Capture Image)
      → v.last_snap_ms ≤ c.now
      → c.now < 2 ^ 64
      → is_due auto_snapshot interval v c ≡ true
      → v.last_snap_ms + interval ≤ c.now
  unfolding is_due
  is_due-gap v c h k e = ground arith

  see-cases :
      (v : Vision Image) (c : Capture Image)
      → v.last_snap_ms ≤ c.now
      → c.now < 2 ^ 64
      → (((see auto_snapshot interval v c).saved ≡ v.saved)
          × ((see auto_snapshot interval v c).last_snap_ms ≡ v.last_snap_ms))
        ⊎ (((see auto_snapshot interval v c).saved ≡ v.saved ++ c.now ∷ [])
            × ((see auto_snapshot interval v c).last_snap_ms ≡ c.now)
            × (v.last_snap_ms + interval ≤ c.now))
  unfolding see take_in is_due
  see-cases v c h k = elim (Bool-cases c.grabbed) [
    | inr e ↦ inl (rw e refl, rw e refl)
    | inl e ↦ elim (Bool-cases (is_due auto_snapshot interval v c)) [
      | inr f ↦ inl (rw (e, f) refl, rw (e, f) refl)
      | inl f ↦ inr (rw (e, f) refl, rw (e, f) refl, is_due-gap v c h k f)
    ]
  ]

  -- The automatic snapshots of any passes of the vision loop come after those before, and each is
  -- at least the interval after the one before it, if the clock does not run backwards.
  pub saved-Chain :
      (cs : List (Capture Image)) (v : Vision Image)
      → Rising v.last_snap_ms cs
      → (new : List ℕ) × ((see_all auto_snapshot interval v cs).saved ≡ v.saved ++ new)
        × Chain interval v.last_snap_ms new
  unfolding see_all
  saved-Chain [] v r = ([], sym (append-nil v.saved), tt)
  saved-Chain (c ∷ cs) v (h, k, r) =
      let next = see auto_snapshot interval v c in
      elim (see-cases v c h k) [
        | inl (same, last) ↦
            let later =
              subst (λ t. Rising t cs) (sym last) (Rising-le v.last_snap_ms c.now cs h r) in
            let (new, e, chain) = saved-Chain cs next later in
            (new, e ∙ ap (λ xs. xs ++ new) same, subst (λ t. Chain interval t new) last chain)
        | inr (more, last, gap) ↦
            let (new, e, chain) = saved-Chain cs next (subst (λ t. Rising t cs) (sym last) r) in
            (
              c.now ∷ new,
              e ∙ ap (λ xs. xs ++ new) more ∙ append_assoc v.saved (c.now ∷ []) new,
              (gap, subst (λ t. Chain interval t new) last chain),
            )
      ]
