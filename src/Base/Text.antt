-- ===== src/Base/Text.antt =====
-- What the code uses of `std::string`: search and decimal printing. A position in a text is the text
-- from there on, and `npos` is `none`.
use Prim.Native.Char.{code}
use Prim.Native.String.{String}
use qt_s5p6818_face_tracking.Base.{
  ℕ, zero, suc, ◌+◌, ◌/◌, ◌%◌, ◌≡◌, ◌≢◌, refl, ap, inl, inr, Bool-cases, Bool, true, false, ◌&&◌,
  [], ◌∷◌, ◌++◌, Bytes, Option, none, some, ltb, ◌==◌, if◌then◌else◌, arith, All,
}

unfoldable pub starts_with : Bytes → Bytes → Bool
starts_with [] bs = true
starts_with (x ∷ xs) [] = false
starts_with (x ∷ xs) (b ∷ bs) = x == b && starts_with xs bs

-- The text from the first occurrence of the needle on.
unfoldable pub find : Bytes → Bytes → Option Bytes
unfolding starts_with
find needle [] = if starts_with needle [] then some [] else none
find needle (b ∷ bs) = if starts_with needle (b ∷ bs) then some (b ∷ bs) else find needle bs

abbrev pub is_some {ℓ} : {A : Type ℓ} → Option A → Bool
is_some none = false
is_some (some a) = true

-- `find(...) != npos`
abbrev pub contains : Bytes → Bytes → Bool
contains needle bs = is_some (find needle bs)

pub starts_with-append : (xs ys : Bytes) → starts_with xs (xs ++ ys) ≡ true
unfolding starts_with
starts_with-append [] ys = refl
starts_with-append (x ∷ xs) ys = ground (arith, starts_with-append xs ys)

pub find_self : (xs ys : Bytes) → find xs (xs ++ ys) ≡ some (xs ++ ys)
unfolding find
find_self [] [] = refl
find_self [] (y ∷ ys) = refl
find_self (x ∷ xs) ys = ground (arith, starts_with-append xs ys)

pub starts_with_sound :
    (needle bs : Bytes) → starts_with needle bs ≡ true → (post : Bytes) × (bs ≡ needle ++ post)
unfolding starts_with
starts_with_sound [] bs h = (bs, refl)
starts_with_sound (x ∷ xs) [] h = cc
starts_with_sound (x ∷ xs) (b ∷ bs) h =
    let (post, e) = starts_with_sound xs bs (ground arith) in (post, ground arith)

-- `contains` decides whether the needle stands somewhere in the text.
pub contains_sound :
    (needle bs : Bytes)
    → contains needle bs ≡ true
    → (pre : Bytes) × (post : Bytes) × (bs ≡ pre ++ (needle ++ post))
unfolding find
contains_sound needle [] h = elim (Bool-cases (starts_with needle [])) [
  | inl here ↦ let (post, e) = starts_with_sound needle [] here in ([], post, e)
  | inr none_here ↦ absurd (cc (rw none_here at h))
]
contains_sound needle (b ∷ bs) h = elim (Bool-cases (starts_with needle (b ∷ bs))) [
  | inl here ↦ let (post, e) = starts_with_sound needle (b ∷ bs) here in ([], post, e)
  | inr later ↦
      let (pre, post, e) = contains_sound needle bs (rw later at h) in (b ∷ pre, post, ap (◌∷◌ b) e)
]

pub contains_complete : (needle pre post : Bytes) → contains needle (pre ++ (needle ++ post)) ≡ true
unfolding find
contains_complete needle [] post = rw (find_self needle post)
contains_complete needle (b ∷ pre) post =
    elim (Bool-cases (starts_with needle (b ∷ (pre ++ (needle ++ post))))) [
      | inl here ↦ rw here
      | inr later ↦ rw later (contains_complete needle pre post)
    ]

-- A text without a character.
pub contains-All : (c : ℕ) (bs : Bytes) → contains (c ∷ []) bs ≡ false → All (λ x. x ≢ c) bs
unfolding find starts_with
contains-All c [] h = tt
contains-All c (b ∷ bs) h = (ground arith, contains-All c bs (ground arith))

pub All-contains : (c : ℕ) (bs : Bytes) → All (λ x. x ≢ c) bs → contains (c ∷ []) bs ≡ false
unfolding find starts_with
All-contains c [] h = refl
All-contains c (b ∷ bs) h = ground (arith, All-contains c bs h.1)

-- The digits of `std::to_string`, lowest last; a number has no more digits than itself and one.
decimal : ℕ → ℕ → Bytes → Bytes
decimal zero n out = out
decimal (suc fuel) n out =
    let rest = decimal fuel (n / 10) ((b'0' + n % 10) ∷ out) in
    if ltb n 10 then (b'0' + n) ∷ out else rest

unfoldable pub to_string : ℕ → Bytes
unfolding decimal
to_string n = decimal (suc n) n []

-- The bytes of an ASCII literal. `String` has its own list constructors.
abbrev pub codes : String → Bytes
codes String.[] = []
codes (String.◌∷◌ c s) = code c ∷ codes s
