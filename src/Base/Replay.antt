-- ===== src/Base/Replay.antt =====
-- Logs of events replayed on what is held: an event that cannot happen then is a misuse, `none`.
use mathlib.Core.Path.{◌≡◌, refl}
use mathlib.Core.Logic.{inl, inr}
use mathlib.Core.Option.{Option, none, some}
use mathlib.Core.List.{List, [], ◌∷◌, ◌++◌}
use qt_s5p6818_face_tracking.Base.Tests.{◌>>=◌, Option-cases}

bind-some {ℓ} : {A : Type ℓ} (o : Option A) → (o >>= λ a. some a) ≡ o
bind-some none = refl
bind-some (some a) = refl

module _ {ℓ κ} {H : Type ℓ} {E : Type κ} (effect : H → E → Option H) where
  abbrev pub replay : H → List E → Option H
  replay h [] = some h
  replay h (e ∷ es) = effect h e >>= λ h'. replay h' es

  pub replay-snoc :
      (h : H) (es : List E) (e : E) → replay h (es ++ e ∷ []) ≡ (replay h es >>= λ h'. effect h' e)
  replay-snoc h [] e = bind-some (effect h e)
  replay-snoc h (f ∷ es) e = elim (Option-cases (effect h f)) [
    | inl none_left ↦ rw none_left refl
    | inr (h', left) ↦ rw left (replay-snoc h' es e)
  ]
