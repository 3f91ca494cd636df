-- ===== src/Vision/Faces.antt =====
-- The face that terminal/src/vision/FaceDetector.cpp follows.
use mathlib.Core.List.{Mem, mem-cons_self, mem-cons_of_mem}
use qt_s5p6818_face_tracking.Base.{
  ℕ, ◌≤◌, ◌≡◌, refl, sym, ◌∙◌, ◌⊎◌, inl, inr, false, List, [], ◌∷◌, All, subst, some, ltb, ltb→lt,
  ltb→ge, if◌then◌else◌, Bool-cases, arith,
}
use qt_s5p6818_face_tracking.Core.Tracking.{ℤ}
use qt_s5p6818_face_tracking.Vision.{Face, area, largest, detect}

abbrev larger : Face → Face → Face
larger best f = if ltb (area best) (area f) then f else best

larger-area : (best f : Face) → (area best ≤ area (larger best f)) × (area f ≤ area (larger best f))
larger-area best f = elim (Bool-cases (ltb (area best) (area f))) [
  | inl e ↦ let h = ltb→lt _ _ e in rw e (omega (arith, h), omega arith)
  | inr e ↦ let h = ltb→ge _ _ e in rw e (omega arith, omega (arith, h))
]

larger-cases : (best f : Face) → (larger best f ≡ best) ⊎ (larger best f ≡ f)
larger-cases best f = elim (Bool-cases (ltb (area best) (area f))) [
  | inl e ↦ inr (rw e refl)
  | inr e ↦ inl (rw e refl)
]

largest-area :
    (fs : List Face) (best : Face)
    → (area best ≤ area (largest best fs)) × All (λ f. area f ≤ area (largest best fs)) fs
unfolding largest
largest-area [] best = (omega arith, tt)
largest-area (f ∷ fs) best =
    let (above, all) = largest-area fs (larger best f) in
    let (p, q) = larger-area best f in (omega (arith, above, p), (omega (arith, above, q), all))

largest-cases : (fs : List Face) (best : Face) → (largest best fs ≡ best) ⊎ Mem (largest best fs) fs
unfolding largest
largest-cases [] best = inl refl
largest-cases (f ∷ fs) best = elim (largest-cases fs (larger best f)) [
  | inr m ↦ inr (mem-cons_of_mem f m)
  | inl e ↦ elim (larger-cases best f) [
    | inl q ↦ inl (e ∙ q)
    | inr q ↦ inr (subst (λ x. Mem x (f ∷ fs)) (sym (e ∙ q)) (mem-cons_self))
  ]
]

-- When the detector finds faces in a picture that is not empty, the box it gives is that of one
-- of them, none of which has a larger area, each number mapped back to the full picture.
pub detect-largest :
    (to_full : ℕ → ℤ) (f : Face) (fs : List Face)
    → (best : Face) × Mem best (f ∷ fs)
      × All (λ g. area g ≤ area best) (f ∷ fs)
      × (detect to_full false (f ∷ fs)
          ≡ some (record {
            x = to_full best.x;
            y = to_full best.y;
            w = to_full best.width;
            h = to_full best.height;
          }))
unfolding detect
detect-largest to_full f fs =
    let best = largest f (f ∷ fs) in
    (
      best,
      elim (largest-cases (f ∷ fs) f) [
        | inl e ↦ subst (λ x. Mem x (f ∷ fs)) (sym e) (mem-cons_self)
        | inr m ↦ m
      ],
      (largest-area (f ∷ fs) f).1,
      refl,
    )
