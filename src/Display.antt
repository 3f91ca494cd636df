-- ===== src/Display.antt =====
-- terminal/src/display/Framebuffer.cpp: frames on the mapped screen memory. OpenCV's pictures are a
-- parameter, and so is what the kernel tells of the screen. `Display.Loop` is the display thread.
pub mod Bounds
pub mod Fit
pub mod Loop
use qt_s5p6818_face_tracking.Base.{
  ◌>>=◌, ℕ, zero, suc, ◌+◌, ◌-◌, ◌*◌, ◌/◌, ◌%◌, ◌^◌, Bool, true, false, ◌||◌, List, [], ◌∷◌, ◌++◌,
  Bytes, Option, none, some, length, take, drop, replicate, ltb, leb, ◌==◌, if◌then◌else◌,
}
use qt_s5p6818_face_tracking.Core.Tracking.{ℤ, pos, negsuc, ◌+ℤ◌, half}

-- The sizes of a `cv::Mat`, `cv::resize` by a factor with INTER_AREA, and the rows of bytes of the
-- two conversions by `cv::cvtColor`. `scale` is the factor computed from the sizes of the screen and
-- of the picture, on doubles.
pub record Pictures (Image R : Type 0) : Type 0 where
  pub cols : Image → ℕ
  pub rows : Image → ℕ
  pub div : ℕ → ℕ → R
  pub min : R → R → R
  pub resize : Image → R → Image
  pub to_bgr565 : Image → List Bytes
  pub to_bgra : Image → List Bytes

-- `mem` is `none` for nullptr; the numbers are uint32_t.
pub record Framebuffer : Type 0 where
  pub fd : Bool
  pub mem : Option Bytes
  pub xres : ℕ
  pub yres : ℕ
  pub bpp : ℕ
  pub line_length : ℕ
  pub mem_len : ℕ
  pub warned_fmt : Bool

-- What the system calls of `open` give: the descriptor, the two structures, and the mapping.
pub record Screen : Type 0 where
  pub opens : Bool
  pub has_var : Bool
  pub has_fix : Bool
  pub maps : Bool
  pub xres : ℕ
  pub yres : ℕ
  pub bits_per_pixel : ℕ
  pub line_length : ℕ
  pub smem_len : ℕ

-- The constructor.
unfoldable pub create : Framebuffer
create = record {
  fd = false;
  mem = none;
  xres = 0;
  yres = 0;
  bpp = 0;
  line_length = 0;
  mem_len = 0;
  warned_fmt = false;
}

unfoldable pub open_screen : Framebuffer → Screen → Framebuffer × Bool
open_screen fb dev =
    let fb1 = record fb { fd = dev.opens } in
    let fb2 = record fb1 {
      xres = dev.xres;
      yres = dev.yres;
      bpp = dev.bits_per_pixel;
      line_length = dev.line_length;
      mem_len = dev.smem_len;
    } in
    if dev.opens
    then (if dev.has_var
        then (if dev.has_fix
            then (if dev.maps
                then (record fb2 { mem = some (replicate dev.smem_len 0) }, true)
                else (record fb2 { mem = none }, false))
            else (fb1, false))
        else (fb1, false))
    else (fb1, false)

-- `memcpy` of one row to an offset of the mapping; `none` is a write outside of it.
unfoldable pub copy_row : Bytes → ℕ → Bytes → Option Bytes
copy_row mem at row =
    if leb (at + length row) (length mem)
    then some (take at mem ++ (row ++ drop (at + length row) mem))
    else none

-- `(static_cast<int>(total) - used) / 2`, for a total below 2 ^ 31.
unfoldable pub offset : ℕ → ℕ → ℤ
offset total used = half (if leb used total then pos (total - used) else negsuc (used - total - 1))

-- The conversion of an int to size_t.
unfoldable pub to_size : ℤ → ℕ
to_size (pos n) = n % 2 ^ 64
to_size (negsuc n) = 2 ^ 64 - 1 - n % 2 ^ 64

-- Where row `r` goes.
unfoldable pub row_at : Framebuffer → ℤ → ℤ → ℕ → ℕ → ℕ
unfolding to_size
row_at fb offx offy bytes_per_pixel r =
    (to_size (offy +ℤ pos r) * fb.line_length + to_size offx * bytes_per_pixel) % 2 ^ 64

-- The loop over the rows, from row `r` on.
unfoldable pub copy_rows : (ℕ → ℕ) → ℕ → List Bytes → Bytes → Option Bytes
unfolding copy_row
copy_rows at r [] mem = some mem
copy_rows at r (row ∷ rows) mem = do mem' ← copy_row mem (at r) row; copy_rows at (suc r) rows mem'

module _ {Image R : Type 0} (P : Pictures Image R) where
  -- `src`: the picture, or a smaller one that fits the screen.
  unfoldable pub fit : Framebuffer → Image → Image
  fit fb bgr =
      if ltb fb.xres (P.cols bgr) || ltb fb.yres (P.rows bgr)
      then P.resize bgr (P.min (P.div fb.xres (P.cols bgr)) (P.div fb.yres (P.rows bgr)))
      else bgr

  -- The converted rows centred on the screen.
  unfoldable pub blit : Framebuffer → Bytes → Image → ℕ → List Bytes → Option Framebuffer
  unfolding copy_rows row_at offset
  blit fb mem src bytes_per_pixel conv =
      let offx = offset fb.xres (P.cols src) in
      let offy = offset fb.yres (P.rows src) in
      do
        mem' ← copy_rows (row_at fb offx offy bytes_per_pixel) 0 conv mem
        some (record fb { mem = some mem' })

  unfoldable pub show_in : Framebuffer → Bytes → Image → Option Framebuffer
  unfolding fit
  show_in fb mem bgr =
      let src = fit fb bgr in
      if fb.bpp == 16
      then blit fb mem src 2 (P.to_bgr565 src)
      else if fb.bpp == 32
      then blit fb mem src 4 (P.to_bgra src)
      else some (record fb { warned_fmt = true })

  -- `none` when it would write outside the mapping.
  unfoldable pub show_picture : Framebuffer → Image → Option Framebuffer
  show_picture fb bgr = elim fb.mem [
    | none ↦ some fb
    | some mem ↦ if P.cols bgr == 0 || P.rows bgr == 0 then some fb else show_in fb mem bgr
  ]

-- With the bytes that the screen is left with, when there was a mapping.
unfoldable pub close_screen : Framebuffer → Framebuffer × Option Bytes
close_screen fb = (
  record fb { mem = none; fd = false },
  elim fb.mem [ none ↦ none | some mem ↦ some (replicate fb.mem_len 0) ],
)
