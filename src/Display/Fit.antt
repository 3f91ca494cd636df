-- ===== src/Display/Fit.antt =====
-- terminal/src/display/Framebuffer.cpp: `show` on a screen whose memory holds its rows.
use native.Mathlib.Nat.{mul-le-mul_right}
use qt_s5p6818_face_tracking.Base.{
  ℕ, suc, ◌+◌, ◌-◌, ◌*◌, ◌/◌, ◌%◌, ◌^◌, ◌≤◌, ◌<◌, ◌≡◌, refl, ◌∙◌, subst, ◌⊎◌, inl, inr, false, List,
  Bytes, some, length, All, le→leb, if◌then◌else◌, arith, ◌==◌, Bool-cases, ltb, ◌||◌,
}
use qt_s5p6818_face_tracking.Core.Tracking.{pos}
use qt_s5p6818_face_tracking.Display.{
  Framebuffer, Pictures, row_at, offset, to_size, blit, fit, show_in, show_picture,
}
use qt_s5p6818_face_tracking.Display.Bounds.{Landed, IsClear, copy_rows_lem, copy_rows-ext, read}

-- What the kernel says of a screen with `b` bytes for a pixel: its rows fit in the line length, and
-- its lines in the memory, which is mapped.
pub record IsScreen (fb : Framebuffer) (mem : Bytes) (b : ℕ) : Type 0 where
  pub is_mapped : fb.mem ≡ some mem
  pub length-mem : length mem ≡ fb.mem_len
  pub line_holds : fb.xres * b ≤ fb.line_length
  pub mem_holds : fb.yres * fb.line_length ≤ fb.mem_len
  pub mem_small : fb.mem_len < 2 ^ 64
  pub wide : fb.xres < 2 ^ 31
  pub high : fb.yres < 2 ^ 31

-- What OpenCV documents: a resize by the smaller ratio fits the screen, and a conversion keeps the
-- size of the picture.
pub record IsOpencv {Image R : Type 0} (P : Pictures Image R) : Type 0 where
  pub resize_fits :
      (p : Image) (x y : ℕ)
      → (P.cols (P.resize p (P.min (P.div x (P.cols p)) (P.div y (P.rows p)))) ≤ x)
        × (P.rows (P.resize p (P.min (P.div x (P.cols p)) (P.div y (P.rows p)))) ≤ y)
  pub length-to_bgr565 : (p : Image) → length (P.to_bgr565 p) ≡ P.rows p
  pub to_bgr565_rows : (p : Image) → All (λ row. length row ≡ P.cols p * 2) (P.to_bgr565 p)
  pub length-to_bgra : (p : Image) → length (P.to_bgra p) ≡ P.rows p
  pub to_bgra_rows : (p : Image) → All (λ row. length row ≡ P.cols p * 4) (P.to_bgra p)

-- Where row `r` of a centred picture of `c` columns and `n` rows begins.
abbrev pub home : Framebuffer → ℕ → ℕ → ℕ → ℕ → ℕ
home fb b c n r = ((fb.yres - n) / 2 + r) * fb.line_length + (fb.xres - c) / 2 * b

offset_lem : (total used : ℕ) → used ≤ total → offset total used ≡ pos ((total - used) / 2)
unfolding offset
offset_lem total used h = rw (le→leb used total h) refl

home_fits :
    (fb : Framebuffer) (mem : Bytes) (b c n : ℕ)
    → IsScreen fb mem b
    → c ≤ fb.xres
    → n ≤ fb.yres
    → (r : ℕ) → r < n
    → home fb b c n r + c * b ≤ length mem
home_fits fb mem b c n s h k r l =
    let row : (fb.xres - c) / 2 + c ≤ fb.xres = omega arith in
    let line : (fb.yres - n) / 2 + r + 1 ≤ fb.yres = omega arith in
    omega (
      arith,
      s.length-mem,
      s.mem_holds,
      s.line_holds,
      mul-le-mul_right b row,
      mul-le-mul_right fb.line_length line,
    )

row_at_lem :
    (fb : Framebuffer) (mem : Bytes) (b c n : ℕ)
    → IsScreen fb mem b
    → c ≤ fb.xres
    → n ≤ fb.yres
    → (r : ℕ) → r < n
    → row_at fb (offset fb.xres c) (offset fb.yres n) b r ≡ home fb b c n r
unfolding row_at to_size
row_at_lem fb mem b c n s h k r l =
    let room = home_fits fb mem b c n s h k r l in
    let e : ((fb.yres - n) / 2 + r) % 2 ^ 64 ≡ (fb.yres - n) / 2 + r = omega (arith, s.high) in
    let f : (fb.xres - c) / 2 % 2 ^ 64 ≡ (fb.xres - c) / 2 = omega (arith, s.wide) in
    rw (offset_lem fb.xres c h, offset_lem fb.yres n k, e, f)
      (omega (arith, room, s.length-mem, s.mem_small))

module _ {Image R : Type 0} (P : Pictures Image R) (cv : IsOpencv P) (fb : Framebuffer)
    (mem : Bytes) where
  fit_fits : (bgr : Image) → (P.cols (fit P fb bgr) ≤ fb.xres) × (P.rows (fit P fb bgr) ≤ fb.yres)
  unfolding fit
  fit_fits bgr = elim (Bool-cases (ltb fb.xres (P.cols bgr) || ltb fb.yres (P.rows bgr))) [
    | inl e ↦ rw e (cv.resize_fits bgr fb.xres fb.yres)
    | inr e ↦ rw e (ground arith, ground arith)
  ]

  -- The rows in the format of a screen with `b` bytes for a pixel.
  abbrev pub converted : ℕ → Image → List Bytes
  converted b src = if b == 2 then P.to_bgr565 src else P.to_bgra src

  -- What the rows leave: each stands in its place in the memory, and no other byte has changed.
  abbrev pub IsDrawn : ℕ → Image → List Bytes → Bytes → Type 0
  IsDrawn b src conv mem' =
      (length mem' ≡ length mem)
      × (Landed (home fb b (P.cols src) (P.rows src)) 0 conv mem'
          × ((o n : ℕ)
              → IsClear (home fb b (P.cols src) (P.rows src)) (P.cols src * b) 0 (P.rows src) o n
              → read mem' o n ≡ read mem o n))

  blit_lem :
      (b : ℕ) (src : Image) (conv : List Bytes)
      → IsScreen fb mem b
      → P.cols src ≤ fb.xres
      → P.rows src ≤ fb.yres
      → length conv ≡ P.rows src
      → All (λ row. length row ≡ P.cols src * b) conv
      → (mem' : Bytes) × ((blit P fb mem src b conv ≡ some (record fb { mem = some mem' }))
          × IsDrawn b src conv mem')
  unfolding blit
  blit_lem b src conv s h k e ws =
      let at = home fb b (P.cols src) (P.rows src) in
      let step : (i : ℕ) → at i + P.cols src * b ≤ at (suc i) =
        λ i. omega (arith, s.line_holds, mul-le-mul_right b h) in
      let (mem', (copied, (size, (landed, kept)))) =
        copy_rows_lem at (P.cols src * b) step 0 conv mem ws
          (λ i l. home_fits fb mem b (P.cols src) (P.rows src) s h k i (omega arith)) in
      let same =
        copy_rows-ext (row_at fb (offset fb.xres (P.cols src)) (offset fb.yres (P.rows src)) b) at 0
          conv mem (λ i l. row_at_lem fb mem b (P.cols src) (P.rows src) s h k i (omega arith)) in
      (
        mem',
        (
          rw (same, copied) refl,
          (
            size,
            (
              landed,
              subst
                  (λ n.
                    (o m : ℕ) → IsClear at (P.cols src * b) 0 n o m → read mem' o m ≡ read mem o m)
                  e kept,
            ),
          ),
        ),
      )

  show_mapped :
      (bgr : Image)
      → fb.mem ≡ some mem
      → 0 < P.cols bgr
      → 0 < P.rows bgr
      → show_picture P fb bgr ≡ show_in P fb mem bgr
  unfolding show_picture
  show_mapped bgr e c r =
      let f : (P.cols bgr == 0 || P.rows bgr == 0) ≡ false = ground arith in rw (e, f) refl

  show_format :
      (b : ℕ) (bgr : Image)
      → fb.bpp ≡ 8 * b
      → (b ≡ 2) ⊎ (b ≡ 4)
      → show_in P fb mem bgr ≡ blit P fb mem (fit P fb bgr) b (converted b (fit P fb bgr))
  unfolding show_in
  show_format b bgr e (inl two) = rw two (let f : fb.bpp ≡ 16 = omega arith in rw f refl)
  show_format b bgr e (inr four) = rw four (let f : fb.bpp ≡ 32 = omega arith in rw f refl)

  converted_rows :
      (b : ℕ) (src : Image)
      → (b ≡ 2) ⊎ (b ≡ 4)
      → (length (converted b src) ≡ P.rows src)
        × All (λ row. length row ≡ P.cols src * b) (converted b src)
  converted_rows b src (inl two) = rw two (cv.length-to_bgr565 src, cv.to_bgr565_rows src)
  converted_rows b src (inr four) = rw four (cv.length-to_bgra src, cv.to_bgra_rows src)

  -- On such a screen, showing a picture that is not empty puts every row of the fitted and
  -- converted picture at its place in the middle of the screen, and changes no other byte of the
  -- memory.
  pub show_picture_lem :
      (b : ℕ) (bgr : Image)
      → IsScreen fb mem b
      → fb.bpp ≡ 8 * b
      → (b ≡ 2) ⊎ (b ≡ 4)
      → 0 < P.cols bgr
      → 0 < P.rows bgr
      → (mem' : Bytes) × ((show_picture P fb bgr ≡ some (record fb { mem = some mem' }))
          × IsDrawn b (fit P fb bgr) (converted b (fit P fb bgr)) mem')
  show_picture_lem b bgr s e depth c r =
      let src = fit P fb bgr in
      let (size, ws) = converted_rows b src depth in
      let (mem', (drawn, placed)) =
        blit_lem b src (converted b src) s (fit_fits bgr).0 (fit_fits bgr).1 size ws in
      (mem', (show_mapped bgr s.is_mapped c r ∙ show_format b bgr e depth ∙ drawn, placed))
