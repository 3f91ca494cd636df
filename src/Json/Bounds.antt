-- ===== src/Json/Bounds.antt =====
-- Strings that terminal/src/net/MiniJson.h takes out of bytes are bytes.
use qt_s5p6818_face_tracking.Base.{
  ℕ, ◌<◌, ◌≡◌, inl, inr, ◌||◌, [], ◌∷◌, ◌++◌, Bytes, Option, none, some, length, drop, ◌==◌,
  AreBytes, All-append, All-drop, arith, Bool-cases, Option-cases,
}
use qt_s5p6818_face_tracking.Base.Text.{find, starts_with}
use qt_s5p6818_face_tracking.Json.{
  quote, backslash, colon, needle_of, skip_blank, value_pos, unescape_byte, unquote, read_string,
  get_string,
}

abbrev Held : Option Bytes → Type 0
Held none = Unit
Held (some bs) = AreBytes bs

find-AreBytes : (needle bs : Bytes) → AreBytes bs → Held (find needle bs)
unfolding find
find-AreBytes needle [] h = elim (Bool-cases (starts_with needle [])) [
  | inl e ↦ rw e tt
  | inr e ↦ rw e tt
]
find-AreBytes needle (b ∷ bs) h = elim (Bool-cases (starts_with needle (b ∷ bs))) [
  | inl e ↦ rw e h
  | inr e ↦ rw e (find-AreBytes needle bs h.1)
]

skip_blank-AreBytes : (bs : Bytes) → AreBytes bs → AreBytes (skip_blank bs)
unfolding skip_blank
skip_blank-AreBytes [] h = tt
skip_blank-AreBytes (c ∷ cs) h = elim (Bool-cases (c == b' ' || c == b'\t')) [
  | inl e ↦ rw e (skip_blank-AreBytes cs h.1)
  | inr e ↦ rw e h
]

value_pos-AreBytes : (j key : Bytes) → AreBytes j → Held (value_pos j key)
unfolding value_pos
value_pos-AreBytes j key h = elim (Option-cases (find (needle_of key) j)) [
  | inl e ↦ rw e tt
  | inr (k, e) ↦
      let hk =
        All-drop (λ b. b < 256) (length (needle_of key)) k
          (rw e at (find-AreBytes (needle_of key) j h)) in
      rw e (elim (Option-cases (find (colon ∷ []) (drop (length (needle_of key)) k))) [
        | inl f ↦ rw f tt
        | inr (c, f) ↦ rw f (
            skip_blank-AreBytes (drop 1 c) (
              All-drop (λ b. b < 256) 1 c
                (rw f at (find-AreBytes (colon ∷ []) (drop (length (needle_of key)) k) hk))))
      ])
]

unescape_byte-lt : (n : ℕ) → n < 256 → unescape_byte n < 256
unfolding unescape_byte
unescape_byte-lt n h = ground arith

unquote-AreBytes : (out bs : Bytes) → AreBytes out → AreBytes bs → Held (unquote out bs)
unfolding unquote
unquote-AreBytes out [] h k = tt
unquote-AreBytes out (c ∷ []) h k = elim (Bool-cases (c == quote)) [
  | inl e ↦ rw e h
  | inr e ↦ rw e tt
]
unquote-AreBytes out (c ∷ n ∷ cs) h k = elim (Bool-cases (c == quote)) [
  | inl e ↦ rw e h
  | inr e ↦ elim (Bool-cases (c == backslash)) [
    | inl f ↦
        rw (e, f)
          (unquote-AreBytes (out ++ unescape_byte n ∷ []) cs
            (All-append (λ b. b < 256) out _ h (unescape_byte-lt n k.1.0, tt)) k.1.1)
    | inr f ↦
        rw (e, f)
          (unquote-AreBytes (out ++ c ∷ []) (n ∷ cs) (All-append (λ b. b < 256) out _ h (k.0, tt))
            k.1)
  ]
]

read_string-AreBytes : (bs : Bytes) → AreBytes bs → Held (read_string bs)
unfolding read_string
read_string-AreBytes [] h = tt
read_string-AreBytes (c ∷ cs) h = elim (Bool-cases (c == quote)) [
  | inl e ↦ rw e (unquote-AreBytes [] cs tt h.1)
  | inr e ↦ rw e tt
]

pub get_string-AreBytes :
    (j key : Bytes) {s : Bytes} → AreBytes j → get_string j key ≡ some s → AreBytes s
unfolding get_string
get_string-AreBytes j key h q = elim (Option-cases (value_pos j key)) [
  | inl e ↦ absurd (cc (rw e at q))
  | inr (p, e) ↦ rw (rw e at q) at (read_string-AreBytes p (rw e at (value_pos-AreBytes j key h)))
]
