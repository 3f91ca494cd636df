-- ===== src/Websocket/Handshake/Lines.antt =====
-- terminal/src/net/WebSocketConn.cpp: `headerValue` against a lookup in the list of a request's lines.
use mathlib.Core.List.{map-append}
use qt_s5p6818_face_tracking.Base.{
  ℕ, suc, ◌+◌, ◌≤◌, ◌<◌, ◌≡◌, ◌≢◌, refl, sym, ap, subst, ◌∙◌, ◌⊎◌, inl, inr, true, false, ◌&&◌,
  Bool-cases, List, [], ◌∷◌, ◌++◌, map, Bytes, Option, none, some, length, length-append, drop,
  take-append, drop-append, drop-add, drop-append_of_le, append_assoc, All, All-append, All-drop,
  ◌==◌, if◌then◌else◌, arith,
}
use qt_s5p6818_face_tracking.Base.Text.{starts_with, find, codes}
use qt_s5p6818_face_tracking.Websocket.Handshake.{
  to_lower, trim_left, trim_right, position, header_line, value_at, header_value,
}

-- Every line with its end.
abbrev pub unlines : List Bytes → Bytes
unlines [] = []
unlines (l ∷ ls) = l ++ (13 ∷ 10 ∷ unlines ls)

abbrev pub HasNoReturn : Bytes → Type 0
HasNoReturn = All (λ x. x ≢ 13)

-- A line of a request: it is not empty.
abbrev pub IsLine : Bytes → Type 0
IsLine l = (0 < length l) × HasNoReturn l

-- The lines from the first on that begins with `k` (in small letters).
abbrev from_header : Bytes → List Bytes → List Bytes
from_header k [] = []
from_header k (l ∷ ls) = if starts_with k (map to_lower l) then l ∷ ls else from_header k ls

abbrev value_of : Bytes → List Bytes → Bytes
value_of k [] = []
value_of k (l ∷ ls) = trim_right (trim_left (drop (length k) l))

-- The reference: the text behind `name:` in the first line that begins so, letters of either kind
-- taken for the same, without the blanks around it; empty where no line does.
unfoldable pub lookup_header : List Bytes → Bytes → Bytes
unfolding trim_left trim_right to_lower
lookup_header ls name = let k = map to_lower name ++ codes ":" in value_of k (from_header k ls)

-- A needle that begins with a line's end is found at the first line's end, or behind it.
pub find_line :
    (l k rest : Bytes)
    → HasNoReturn l
    → find (13 ∷ 10 ∷ k) (l ++ (13 ∷ 10 ∷ rest))
      ≡ (if starts_with k rest then some (13 ∷ 10 ∷ rest) else find (13 ∷ 10 ∷ k) rest)
unfolding find starts_with
find_line [] k rest h = ground arith
find_line (x ∷ l) k rest h = ground (arith, find_line l k rest h.1)

starts_with_line :
    (k l rest : Bytes) → HasNoReturn k → starts_with k (l ++ 13 ∷ rest) ≡ starts_with k l
unfolding starts_with
starts_with_line [] l rest h = refl
starts_with_line (x ∷ k) [] rest h = ground arith
starts_with_line (x ∷ k) (y ∷ l) rest h = ap (λ b. x == y && b) (starts_with_line k l rest h.1)

pub starts_with-length : (k l : Bytes) → starts_with k l ≡ true → length k ≤ length l
unfolding starts_with
starts_with-length [] l h = omega arith
starts_with-length (x ∷ k) [] h = cc
starts_with-length (x ∷ k) (y ∷ l) h = ground (arith, starts_with-length k l)

to_lower-HasNoReturn : (l : Bytes) → HasNoReturn l → HasNoReturn (map to_lower l)
unfolding to_lower
to_lower-HasNoReturn [] h = tt
to_lower-HasNoReturn (x ∷ l) h = (ground (arith, h.0), to_lower-HasNoReturn l h.1)

length-lower : (bs : Bytes) → length (map to_lower bs) ≡ length bs
length-lower [] = refl
length-lower (b ∷ bs) = ap suc (length-lower bs)

-- The line's end before the header, in the block in small letters.
abbrev found : List Bytes → Option Bytes
found [] = none
found (m ∷ ms) = some (13 ∷ 10 ∷ map to_lower (unlines (m ∷ ms)))

lower_line :
    (l : Bytes) (rest : Bytes)
    → map to_lower (l ++ (13 ∷ 10 ∷ rest)) ≡ map to_lower l ++ (13 ∷ 10 ∷ map to_lower rest)
unfolding to_lower
lower_line l rest = map-append to_lower l (13 ∷ 10 ∷ rest)

starts_with_nothing : (k : Bytes) → 0 < length k → starts_with k [] ≡ false
unfolding starts_with
starts_with_nothing [] h = absurd (omega arith)
starts_with_nothing (x ∷ k) h = refl

find_nothing : (k : Bytes) → find (13 ∷ 10 ∷ k) [] ≡ none
unfolding find starts_with
find_nothing k = refl

find_lines :
    (k l : Bytes) (ls : List Bytes)
    → 0 < length k
    → HasNoReturn k
    → HasNoReturn l
    → All IsLine ls
    → find (13 ∷ 10 ∷ k) (l ++ (13 ∷ 10 ∷ map to_lower (unlines ls))) ≡ found (from_header k ls)
find_lines k l [] p hk hl hs = find_line l k [] hl ∙ rw (starts_with_nothing k p) (find_nothing k)
find_lines k l (m ∷ ms) p hk hl hs =
    let low = lower_line m (unlines ms) in
    let here = starts_with_line k (map to_lower m) (10 ∷ map to_lower (unlines ms)) hk in
    find_line l k (map to_lower (unlines (m ∷ ms))) hl
    ∙ elim (Bool-cases (starts_with k (map to_lower m))) [
      | inl e ↦ rw (low, here, e) (ap (λ x. some (13 ∷ 10 ∷ x)) (sym low))
      | inr e ↦
          rw (low, here, e)
            (find_lines k (map to_lower m) ms p hk (to_lower-HasNoReturn m hs.0.1) hs.1)
    ]

from_header-suffix :
    (k : Bytes) (ls : List Bytes) → (pre : Bytes) × (unlines ls ≡ pre ++ unlines (from_header k ls))
from_header-suffix k [] = ([], refl)
from_header-suffix k (l ∷ ls) = elim (Bool-cases (starts_with k (map to_lower l))) [
  | inl e ↦ ([], rw e)
  | inr e ↦
      let (pre, f) = from_header-suffix k ls in
      (
        l ++ (13 ∷ 10 ∷ pre),
        rw e (ap (λ x. l ++ (13 ∷ 10 ∷ x)) f ∙ sym (append_assoc l (13 ∷ 10 ∷ pre) _)),
      )
]

-- What stands at a position inside the block, from its line to the line's end.
value_at_line :
    (block key x rest : Bytes) (pos : ℕ)
    → drop (pos + length key + 1) block ≡ x ++ (13 ∷ 10 ∷ rest)
    → HasNoReturn x
    → value_at block key (some pos) ≡ trim_right (trim_left x)
unfolding value_at starts_with
value_at_line block key x rest pos e h =
    let line_end = 13 ∷ 10 ∷ rest in
    let size : position (x ++ line_end) line_end ≡ length x =
      omega (arith, length-append x line_end) in
    rw e (
      rw (find_line x [] rest h)
        (rw size (ap (λ y. trim_right (trim_left y)) (take-append x line_end))))

lines_at :
    (k pre : Bytes) (m : Bytes) (ms : List Bytes)
    → length k ≤ length m
    → drop (length pre + length k) (pre ++ unlines (m ∷ ms))
      ≡ drop (length k) m ++ (13 ∷ 10 ∷ unlines ms)
lines_at k pre m ms h =
    drop-add (length pre) (length k) (pre ++ unlines (m ∷ ms))
    ∙ ap (drop (length k)) (drop-append pre (unlines (m ∷ ms)))
    ∙ drop-append_of_le (length k) m (13 ∷ 10 ∷ unlines ms) h

from_header-head :
    (k : Bytes) (ls : List Bytes) {m : Bytes} {ms : List Bytes}
    → All IsLine ls
    → from_header k ls ≡ m ∷ ms
    → (starts_with k (map to_lower m) ≡ true) × HasNoReturn m
from_header-head k [] h e = cc
from_header-head k (l ∷ ls) {m} {ms} h e = elim (Bool-cases (starts_with k (map to_lower l))) [
  | inl f ↦
      let same : l ≡ m = cc (rw f at e) in
      (subst (λ x. starts_with k (map to_lower x) ≡ true) same f, subst HasNoReturn same h.0.1)
  | inr f ↦ from_header-head k ls h.1 (rw f at e)
]

module _ (key l : Bytes) (ls : List Bytes) (hk : HasNoReturn (key ++ codes ":")) (hl : IsLine l)
    (hs : All IsLine ls) where
  starts_first :
      starts_with (key ++ codes ":") (map to_lower (unlines (l ∷ ls)))
      ≡ starts_with (key ++ codes ":") (map to_lower l)
  starts_first =
      ap (starts_with (key ++ codes ":")) (lower_line l (unlines ls))
      ∙ starts_with_line (key ++ codes ":") (map to_lower l) (10 ∷ map to_lower (unlines ls)) hk

  header_line_first :
      starts_with (key ++ codes ":") (map to_lower l) ≡ true
      → header_line (map to_lower (unlines (l ∷ ls))) key ≡ some 0
  unfolding header_line
  header_line_first e = rw (starts_first ∙ e) refl

  found_later :
      find (13 ∷ 10 ∷ (key ++ codes ":")) (map to_lower (unlines (l ∷ ls)))
      ≡ found (from_header (key ++ codes ":") ls)
  found_later =
      ap (find (13 ∷ 10 ∷ (key ++ codes ":"))) (lower_line l (unlines ls))
      ∙ find_lines (key ++ codes ":") (map to_lower l) ls
          (omega (arith, length-append key (codes ":"))) hk (to_lower-HasNoReturn l hl.1) hs

  header_line-none :
      starts_with (key ++ codes ":") (map to_lower l) ≡ false
      → from_header (key ++ codes ":") ls ≡ []
      → header_line (map to_lower (unlines (l ∷ ls))) key ≡ none
  unfolding header_line
  header_line-none e f = rw (starts_first ∙ e) (rw (found_later ∙ ap found f, header_line) refl)

  header_line_later :
      (pre m : Bytes) (ms : List Bytes)
      → starts_with (key ++ codes ":") (map to_lower l) ≡ false
      → from_header (key ++ codes ":") ls ≡ m ∷ ms
      → unlines ls ≡ pre ++ unlines (m ∷ ms)
      → header_line (map to_lower (unlines (l ∷ ls))) key ≡ some (length (l ++ (13 ∷ 10 ∷ pre)))
  unfolding header_line
  header_line_later pre m ms e f split = rw (starts_first ∙ e) (
      rw (found_later ∙ ap found f, header_line)
        (ap some (
          ground (
            arith,
            hl.0,
            length-lower (l ++ (13 ∷ 10 ∷ unlines ls)),
            length-lower (unlines (m ∷ ms)),
            length-append l (13 ∷ 10 ∷ unlines ls),
            length-append l (13 ∷ 10 ∷ pre),
            length-append pre (unlines (m ∷ ms)),
            ap length split,
          ))))

-- The value behind a line that the search has come to.
value_behind :
    (key pre m : Bytes) (ms : List Bytes)
    → starts_with (key ++ codes ":") (map to_lower m) ≡ true
    → HasNoReturn m
    → value_at (pre ++ unlines (m ∷ ms)) key (some (length pre))
      ≡ trim_right (trim_left (drop (length (key ++ codes ":")) m))
value_behind key pre m ms starts h =
    let k = key ++ codes ":" in
    let long : length k ≤ length m =
      omega (arith, starts_with-length k (map to_lower m) starts, length-lower m) in
    let size : length pre + length key + 1 ≡ length pre + length k =
      omega (arith, length-append key (codes ":")) in
    value_at_line (pre ++ unlines (m ∷ ms)) key (drop (length k) m) (unlines ms) (length pre)
      (ap (λ n. drop n (pre ++ unlines (m ∷ ms))) size ∙ lines_at k pre m ms long)
      (All-drop (λ x. x ≢ 13) (length k) m h)

from_header_first :
    (k l : Bytes) (ls : List Bytes)
    → starts_with k (map to_lower l) ≡ true
    → from_header k (l ∷ ls) ≡ l ∷ ls
from_header_first k l ls e = rw e refl

from_header_later :
    (k l : Bytes) (ls : List Bytes)
    → starts_with k (map to_lower l) ≡ false
    → from_header k (l ∷ ls) ≡ from_header k ls
from_header_later k l ls e = rw e refl

List-cases : (xs : List Bytes) → (xs ≡ []) ⊎ ((m : Bytes) × (ms : List Bytes) × (xs ≡ m ∷ ms))
List-cases [] = inl refl
List-cases (m ∷ ms) = inr (m, ms, refl)

value_at-none : (block key : Bytes) → value_at block key none ≡ []
unfolding value_at
value_at-none block key = refl

-- Both sides for lines in small letters, with everything below them shut.
values_agree :
    (key l : Bytes) (ls : List Bytes)
    → HasNoReturn (key ++ codes ":")
    → IsLine l
    → All IsLine ls
    → value_at (unlines (l ∷ ls)) key (header_line (map to_lower (unlines (l ∷ ls))) key)
      ≡ value_of (key ++ codes ":") (from_header (key ++ codes ":") (l ∷ ls))
values_agree key l ls hk hl hs =
    let k = key ++ codes ":" in
    elim (Bool-cases (starts_with k (map to_lower l))) [
      | inl e ↦
          ap (value_at (unlines (l ∷ ls)) key) (header_line_first key l ls hk hl hs e)
          ∙ value_behind key [] l ls e hl.1
          ∙ ap (value_of k) (sym (from_header_first k l ls e))
      | inr e ↦ elim (List-cases (from_header k ls)) [
        | inl f ↦
            ap (value_at (unlines (l ∷ ls)) key) (header_line-none key l ls hk hl hs e f)
            ∙ value_at-none (unlines (l ∷ ls)) key
            ∙ ap (value_of k) (sym (from_header_later k l ls e ∙ f))
        | inr (m, ms, f) ↦
            let (pre, cut) = from_header-suffix k ls in
            let split : unlines ls ≡ pre ++ unlines (m ∷ ms) = cut ∙ ap (λ x. pre ++ unlines x) f in
            let before = l ++ (13 ∷ 10 ∷ pre) in
            let block : unlines (l ∷ ls) ≡ before ++ unlines (m ∷ ms) =
              ap (λ x. l ++ (13 ∷ 10 ∷ x)) split
              ∙ sym (append_assoc l (13 ∷ 10 ∷ pre) (unlines (m ∷ ms))) in
            let (starts, plain) = from_header-head k ls hs f in
            ap (value_at (unlines (l ∷ ls)) key)
              (header_line_later key l ls hk hl hs pre m ms e f split)
            ∙ ap (λ b. value_at b key (some (length before))) block
            ∙ value_behind key before m ms starts plain
            ∙ ap (value_of k) (sym (from_header_later k l ls e ∙ f))
      ]
    ]

key-HasNoReturn : (name : Bytes) → HasNoReturn name → HasNoReturn (map to_lower name ++ codes ":")
key-HasNoReturn name h =
    All-append (λ x. x ≢ 13) (map to_lower name) (codes ":") (to_lower-HasNoReturn name h)
      (omega arith, tt)

header_value_lem :
    (block name : Bytes)
    → header_value block name
      ≡ value_at block (map to_lower name) (header_line (map to_lower block) (map to_lower name))
unfolding header_value
header_value_lem block name = refl

lookup_header_lem :
    (ls : List Bytes) (name : Bytes)
    → lookup_header ls name
      ≡ value_of (map to_lower name ++ codes ":") (from_header (map to_lower name ++ codes ":") ls)
unfolding lookup_header
lookup_header_lem ls name = refl

-- For lines that are not empty and hold no carriage return, and a name without one, `headerValue`
-- on the block of the lines is the lookup in the list of them.
pub header_value-lookup :
    (name l : Bytes) (ls : List Bytes)
    → HasNoReturn name
    → All IsLine (l ∷ ls)
    → header_value (unlines (l ∷ ls)) name ≡ lookup_header (l ∷ ls) name
header_value-lookup name l ls hn (hl, hs) =
    header_value_lem (unlines (l ∷ ls)) name
    ∙ values_agree (map to_lower name) l ls (key-HasNoReturn name hn) hl hs
    ∙ sym (lookup_header_lem (l ∷ ls) name)
