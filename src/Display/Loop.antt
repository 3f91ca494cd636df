-- ===== src/Display/Loop.antt =====
-- terminal/src/app/DisplayThread.cpp and core/StatusBoard.h: the display thread, over a framebuffer.
-- Drawing by OpenCV, and printf's `%.nf` of a double, are arguments.
use qt_s5p6818_face_tracking.Base.{
  ℕ, ◌*◌, ◌/◌, ◌<◌, ◌≤◌, ◌≡◌, refl, ◌∙◌, ◌>>=◌, ◌⊎◌, inl, inr, Bool, true, List, [], ◌∷◌, ◌++◌,
  Bytes, Option, none, some, take, ltb, ◌==◌, ◌||◌, if◌then◌else◌, arith, Bool-cases, replicate,
  length-replicate, ◌^◌,
}
use qt_s5p6818_face_tracking.Base.Text.{codes}
use qt_s5p6818_face_tracking.Core.Hub.{Frame, latest}
use qt_s5p6818_face_tracking.Core.Tracking.{ℤ}
use qt_s5p6818_face_tracking.Display.{Framebuffer, Screen, open_screen, Pictures, show_picture}
use qt_s5p6818_face_tracking.Display.Fit.{IsScreen, IsOpencv, show_picture_lem}

pub record StatusBoard (R : Type 0) : Type 0 where
  pub pan_angle : R
  pub tilt_angle : R
  pub auto_track : Bool
  pub capture_fps : R
  pub face_found : Bool
  pub client_count : ℤ

-- `print k x` is `%.kf` of a double, `print_int` is `%d`; the other two draw on a picture: a black
-- box over the top 22 lines, and white text at (6, 16).
pub record Drawing (Image R : Type 0) : Type 0 where
  pub print : ℕ → R → Bytes
  pub print_int : ℤ → Bytes
  pub rectangle : Image → ℕ → Image
  pub put_text : Image → Bytes → Image

-- What the kernel tells of a screen with `b` bytes for a pixel: its rows fit in the line length, and
-- its lines in the memory.
pub record IsGeometry (dev : Screen) (b : ℕ) : Type 0 where
  pub depth : dev.bits_per_pixel ≡ 8 * b
  pub line_holds : dev.xres * b ≤ dev.line_length
  pub mem_holds : dev.yres * dev.line_length ≤ dev.smem_len
  pub mem_small : dev.smem_len < 2 ^ 64
  pub wide : dev.xres < 2 ^ 31
  pub high : dev.yres < 2 ^ 31

-- The constructor's choice, and `period` in milliseconds.
unfoldable pub period_ms : ℕ → ℕ
period_ms target_fps = 1000 / (if ltb 0 target_fps then target_fps else 30)

module _ {Image R : Type 0} (D : Drawing Image R) where
  -- snprintf keeps what fits in 192 bytes with the closing zero.
  unfoldable pub status_line : StatusBoard R → Bytes
  status_line s = take 191 (
      codes "FPS:"
      ++ (D.print 1 s.capture_fps
          ++ (codes "  "
              ++ ((if s.auto_track then codes "AUTO" else codes "MANUAL")
                  ++ (codes "  PAN:"
                      ++ (D.print 0 s.pan_angle
                          ++ (codes " TILT:"
                              ++ (D.print 0 s.tilt_angle
                                  ++ (codes "  FACE:"
                                      ++ ((if s.face_found then codes "Y" else codes "N")
                                          ++ (codes "  CLIENTS:"
                                              ++ D.print_int s.client_count)))))))))))

  unfoldable pub overlay : StatusBoard R → Image → Image
  unfolding status_line
  overlay s mat = D.put_text (D.rectangle mat 22) (status_line s)

  module _ {F : Type 0} (P : Pictures Image F) where
    -- One pass of the loop, on what the hub and the status board hold.
    unfoldable pub display_pass :
        Framebuffer → Option (Frame Image) → StatusBoard R → Option Framebuffer
    unfolding overlay latest
    display_pass fb hub s = elim (latest hub) [
      | none ↦ some fb
      | some f ↦
          if P.cols f.mat == 0 || P.rows f.mat == 0
          then some fb
          else show_picture P fb (overlay s f.mat)
    ]

    -- The passes until the thread is stopped.
    unfoldable pub run_display :
        Framebuffer → List (Option (Frame Image) × StatusBoard R) → Option Framebuffer
    unfolding display_pass
    run_display fb [] = some fb
    run_display fb ((hub, s) ∷ ts) = do fb' ← display_pass fb hub s; run_display fb' ts

    module _ (cv : IsOpencv P) (b : ℕ) (depth : (b ≡ 2) ⊎ (b ≡ 4)) where
      -- A screen in a format of `b` bytes, with its memory mapped.
      abbrev pub IsReady : Framebuffer → Type 0
      IsReady fb = (fb.bpp ≡ 8 * b) × ((mem : Bytes) × IsScreen fb mem b)

      show-IsReady :
          (fb : Framebuffer) (bgr : Image)
          → IsReady fb
          → (fb' : Framebuffer) × ((show_picture P fb bgr ≡ some fb') × IsReady fb')
      unfolding show_picture
      show-IsReady fb bgr (e, (mem, s)) = elim (Bool-cases (P.cols bgr == 0 || P.rows bgr == 0)) [
        | inl empty ↦ (fb, (rw (s.is_mapped, empty) refl, (e, (mem, s))))
        | inr full ↦
            let (mem', (drawn, (size, kept))) =
              show_picture_lem P cv fb mem b bgr s e depth (ground arith) (ground arith) in
            (
              record fb { mem = some mem' },
              (
                drawn,
                (
                  e,
                  (
                    mem',
                    record {
                      is_mapped = refl;
                      length-mem = size ∙ s.length-mem;
                      line_holds = s.line_holds;
                      mem_holds = s.mem_holds;
                      mem_small = s.mem_small;
                      wide = s.wide;
                      high = s.high;
                    },
                  ),
                ),
              ),
            )
      ]

      pass-IsReady :
          (fb : Framebuffer) (hub : Option (Frame Image)) (s : StatusBoard R)
          → IsReady fb
          → (fb' : Framebuffer) × ((display_pass fb hub s ≡ some fb') × IsReady fb')
      unfolding display_pass latest
      pass-IsReady fb none s h = (fb, (refl, h))
      pass-IsReady fb (some f) s h = elim (Bool-cases (P.cols f.mat == 0 || P.rows f.mat == 0)) [
        | inl e ↦ (fb, (rw e refl, h))
        | inr e ↦ rw e (show-IsReady fb (overlay s f.mat) h)
      ]

      run-IsReady :
          (fb : Framebuffer) (ts : List (Option (Frame Image) × StatusBoard R))
          → IsReady fb
          → (fb' : Framebuffer) × ((run_display fb ts ≡ some fb') × IsReady fb')
      unfolding run_display
      run-IsReady fb [] h = (fb, (refl, h))
      run-IsReady fb ((hub, s) ∷ ts) h =
          let (fb1, (e, h1)) = pass-IsReady fb hub s h in
          let (fb2, (f, h2)) = run-IsReady fb1 ts h1 in (fb2, (rw e f, h2))

      open-IsReady :
          (fb : Framebuffer) (dev : Screen)
          → (open_screen fb dev).1 ≡ true
          → IsGeometry dev b
          → IsReady (open_screen fb dev).0
      unfolding open_screen
      open-IsReady fb dev e g =
          let opens : dev.opens ≡ true = ground arith in
          let has_var : dev.has_var ≡ true = ground arith in
          let has_fix : dev.has_fix ≡ true = ground arith in
          let maps : dev.maps ≡ true = ground arith in
          rw (opens, has_var, has_fix, maps)
            (
              g.depth,
              (
                replicate dev.smem_len 0,
                record {
                  is_mapped = refl;
                  length-mem = length-replicate dev.smem_len 0;
                  line_holds = g.line_holds;
                  mem_holds = g.mem_holds;
                  mem_small = g.mem_small;
                  wide = g.wide;
                  high = g.high;
                },
              ),
            )

      -- On a screen that opens and whose lines hold its rows and whose memory holds its lines,
      -- with 16 or 32 bits for a pixel, no pass of the display thread writes outside the mapped
      -- memory, whatever frames and status there are; a picture scaled by OpenCV fits, and a
      -- converted one keeps its size.
      pub run_display_safe :
          (fb : Framebuffer) (dev : Screen) (ts : List (Option (Frame Image) × StatusBoard R))
          → (open_screen fb dev).1 ≡ true
          → IsGeometry dev b
          → (fb' : Framebuffer) × ((run_display (open_screen fb dev).0 ts ≡ some fb') × IsReady fb')
      run_display_safe fb dev ts e g =
          run-IsReady (open_screen fb dev).0 ts (open-IsReady fb dev e g)
