-- ===== src/Display/Bounds.antt =====
-- terminal/src/display/Framebuffer.cpp: `show` stays inside the screen's memory.
use qt_s5p6818_face_tracking.Base.{
  ℕ, zero, suc, ◌+◌, ◌-◌, ◌≤◌, ◌<◌, ◌≡◌, refl, sym, ap, ◌∙◌, subst, ◌>>=◌, ◌⊎◌, inl, inr, List, [],
  ◌∷◌, ◌++◌, Bytes, Option, none, some, length, take, drop, All, length-append, length-take,
  length-drop, take-append, drop-append, take-append_of_le, drop-append_of_le, take-append-drop,
  drop-add, le→leb, arith,
}
use qt_s5p6818_face_tracking.Display.{copy_row, copy_rows}

-- The `n` bytes from `o` on.
abbrev pub read : Bytes → ℕ → ℕ → Bytes
read mem o n = take n (drop o mem)

read-front : (o n : ℕ) (xs ys : Bytes) → o + n ≤ length xs → read (xs ++ ys) o n ≡ read xs o n
read-front o n xs ys h =
    ap (take n) (drop-append_of_le o xs ys (omega arith))
    ∙ take-append_of_le n (drop o xs) ys (omega (arith, length-drop o xs))

drop-front : (k o : ℕ) (xs ys : Bytes) → length xs ≡ k → k ≤ o → drop o (xs ++ ys) ≡ drop (o - k) ys
drop-front k o xs ys e h =
    let cut : o ≡ length xs + (o - k) = omega arith in
    ap (λ m. drop m (xs ++ ys)) cut
    ∙ drop-add (length xs) (o - k) (xs ++ ys)
    ∙ ap (drop (o - k)) (drop-append xs ys)

-- What one row leaves: the memory with the row in it.
abbrev patched : Bytes → ℕ → Bytes → Bytes
patched mem at row = take at mem ++ (row ++ drop (at + length row) mem)

length-patched :
    (mem : Bytes) (at : ℕ) (row : Bytes)
    → at + length row ≤ length mem
    → length (patched mem at row) ≡ length mem
length-patched mem at row h = omega (
  arith,
  length-append (take at mem) (row ++ drop (at + length row) mem),
  length-append row (drop (at + length row) mem),
  length-take at mem,
  length-drop (at + length row) mem,
)

read-patched :
    (mem : Bytes) (at : ℕ) (row : Bytes)
    → at + length row ≤ length mem
    → read (patched mem at row) at (length row) ≡ row
read-patched mem at row h =
    let e : length (take at mem) ≡ at = omega (arith, length-take at mem) in
    let same : at - at ≡ 0 = omega arith in
    ap (take (length row)) (
      drop-front at at (take at mem) (row ++ drop (at + length row) mem) e (omega arith)
      ∙ ap (λ k. drop k (row ++ drop (at + length row) mem)) same)
    ∙ take-append row (drop (at + length row) mem)

-- A stretch that the row does not touch.
patched_keeps :
    (mem : Bytes) (at : ℕ) (row : Bytes) (o n : ℕ)
    → at + length row ≤ length mem
    → (o + n ≤ at) ⊎ (at + length row ≤ o)
    → read (patched mem at row) o n ≡ read mem o n
patched_keeps mem at row o n h (inl before) =
    let e : length (take at mem) ≡ at = omega (arith, length-take at mem) in
    read-front o n (take at mem) (row ++ drop (at + length row) mem) (omega arith)
    ∙ sym (read-front o n (take at mem) (drop at mem) (omega arith))
    ∙ ap (λ m. read m o n) (take-append-drop at mem)
patched_keeps mem at row o n h (inr behind) =
    let e : length (take at mem) ≡ at = omega (arith, length-take at mem) in
    let k = length row in
    let cut : o ≡ at + k + (o - at - k) = omega arith in
    ap (take n) (
      drop-front at o (take at mem) (row ++ drop (at + k) mem) e (omega arith)
      ∙ drop-front k (o - at) row (drop (at + k) mem) refl (omega arith)
      ∙ sym (drop-add (at + k) (o - at - k) mem)
      ∙ sym (ap (λ m. drop m mem) cut))

-- Each row stands where it goes.
abbrev pub Landed : (ℕ → ℕ) → ℕ → List Bytes → Bytes → Type 0
Landed at r [] mem = Unit
Landed at r (row ∷ rows) mem = (read mem (at r) (length row) ≡ row) × Landed at (suc r) rows mem

-- The stretch of `n` bytes from `o` on is clear of `k` rows of `w` bytes, from row `r` on.
abbrev pub IsClear : (ℕ → ℕ) → ℕ → ℕ → ℕ → ℕ → ℕ → Type 0
IsClear at w r zero o n = Unit
IsClear at w r (suc k) o n = ((o + n ≤ at r) ⊎ (at r + w ≤ o)) × IsClear at w (suc r) k o n

module _ (at : ℕ → ℕ) (w : ℕ) (spaced : (i : ℕ) → at i + w ≤ at (suc i)) where
  ahead-IsClear : (r k o n : ℕ) → o + n ≤ at r → IsClear at w r k o n
  ahead-IsClear r zero o n h = tt
  ahead-IsClear r (suc k) o n h = (inl h, ahead-IsClear (suc r) k o n (omega (arith, spaced r)))

  -- All the rows of `w` bytes are copied when the last one ends inside the memory: each stands
  -- where it goes, and no other byte changes.
  pub copy_rows_lem :
      (r : ℕ) (rows : List Bytes) (mem : Bytes)
      → All (λ row. length row ≡ w) rows
      → ((i : ℕ) → i < r + length rows → at i + w ≤ length mem)
      → (mem' : Bytes) × ((copy_rows at r rows mem ≡ some mem')
          × ((length mem' ≡ length mem)
              × (Landed at r rows mem'
                  × ((o n : ℕ) → IsClear at w r (length rows) o n → read mem' o n ≡ read mem o n))))
  unfolding copy_rows
  copy_rows_lem r [] mem ws h = (mem, (refl, (refl, (tt, λ o n c. refl))))
  copy_rows_lem r (row ∷ rows) mem ws h =
      let room : at r + length row ≤ length mem = omega (arith, h r (omega arith), ws.0) in
      let same = length-patched mem (at r) row room in
      let (mem', (copied, (size, (landed, kept)))) =
        copy_rows_lem (suc r) rows (patched mem (at r) row) ws.1
          (λ i k. omega (arith, h i (omega arith), same)) in
      let own =
        kept (at r) (length row) (
          ahead-IsClear (suc r) (length rows) (at r) (length row)
            (omega (arith, spaced r, ws.0))) in
      (
        mem',
        (
          rw (le→leb (at r + length row) (length mem) room, copy_row) copied,
          (
            size ∙ same,
            (
              (own ∙ read-patched mem (at r) row room, landed),
              λ o n c.
                  kept o n c.1
                  ∙ patched_keeps mem (at r) row o n room
                      (subst (λ v. (o + n ≤ at r) ⊎ (at r + v ≤ o)) (sym ws.0) c.0),
            ),
          ),
        ),
      )

bind-ext :
    {A B : Type 0} (o : Option A) {f g : A → Option B}
    → ((a : A) → f a ≡ g a)
    → (o >>= f) ≡ (o >>= g)
bind-ext none h = refl
bind-ext (some a) h = h a

-- Two ways to say where the rows go.
pub copy_rows-ext :
    (at to : ℕ → ℕ) (r : ℕ) (rows : List Bytes) (mem : Bytes)
    → ((i : ℕ) → i < r + length rows → at i ≡ to i)
    → copy_rows at r rows mem ≡ copy_rows to r rows mem
unfolding copy_rows
copy_rows-ext at to r [] mem h = refl
copy_rows-ext at to r (row ∷ rows) mem h =
    ap (λ k. copy_row mem k row >>= (λ mem'. copy_rows at (suc r) rows mem')) (h r (omega arith))
    ∙ bind-ext (copy_row mem (to r) row)
        (λ mem'. copy_rows-ext at to (suc r) rows mem' (λ i k. h i (omega arith)))
