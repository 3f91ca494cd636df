-- ===== src/Camera/Driver.antt =====
-- terminal/src/capture/V4L2Camera.cpp: what `open` makes of what the driver says of its format and its
-- buffers, and what `grab` keeps of it.
use qt_s5p6818_face_tracking.Base.{
  ℕ, zero, suc, ◌*◌, ◌≤◌, ◌<◌, ◌≡◌, ◌⊎◌, inl, inr, arith, refl, ap, ◌∙◌, Bool, true, false, ◌&&◌,
  List, [], ◌∷◌, Option, none, some, length, replicate, length-replicate, ltb, ◌==◌, if_lem, All,
}
use qt_s5p6818_face_tracking.Camera.{
  Camera, Region, Answer, Kernel, Request, request_buffers, set_format, set_parm, query_buffer,
  queue_buffer, query_cap, stream_on, note, next, retry, xioctl, try_formats, init_format, set_at,
  map_buffer, map_buffers, init_buffers, queue_buffers, switch_on, and_then, start_streaming,
  check_capabilities, open_device, open_camera, mjpeg, yuyv,
}
use qt_s5p6818_face_tracking.Camera.Opening.{and_then_lem}

-- What Video4Linux documents of the fields that a driver sets, each in the answers that set it:
-- `VIDIOC_REQBUFS` says how many buffers there are, `VIDIOC_QUERYBUF` that each has room for an
-- image, `VIDIOC_S_FMT` gives pictures that are no larger than an image where the format is YUYV, and `VIDIOC_DQBUF`
-- gives one of the buffers and no more bytes of it than an image.
pub record IsDriver (count size : ℕ) (gives : ℕ → Answer) : Type 0 where
  pub counts : (j : ℕ) → (gives j).count ≡ count
  pub sizes : (j : ℕ) → size ≤ (gives j).size
  pub pictures :
      (j : ℕ) → (gives j).pixel_format ≡ yuyv → 2 * ((gives j).height * (gives j).width) ≤ size
  pub indices : (j : ℕ) → (gives j).index < count
  pub used : (j : ℕ) → (gives j).bytes_used ≤ size

module _ (count size : ℕ) where
  -- A buffer that is mapped has room for an image.
  abbrev pub IsLong : Option Region → Type 0
  IsLong none = Unit
  IsLong (some b) = size ≤ b.1

  -- The camera expects one of the two formats, and pictures in YUYV that fit an image.
  pub record Fits (c : Camera) : Type 0 where
    pub driver : IsDriver count size c.kernel.gives
    pub small : (c.pixel_format ≡ mjpeg) ⊎ (2 * (c.height * c.width) ≤ size)

  -- It has as many buffers as the driver, with room for an image each.
  pub record Supplied (c : Camera) : Type 0 where
    pub fits : Fits c
    pub counted : length c.buffers ≡ count
    pub long : All IsLong c.buffers

  retry-IsDriver :
      (n : ℕ) (k : Kernel) (r : Request) (works : Bool)
      → IsDriver count size k.gives
      → IsDriver count size (retry n k r works).gives
  unfolding retry note
  retry-IsDriver zero k r works h = h
  retry-IsDriver (suc n) k r works h = retry-IsDriver n _ r works h

  pub xioctl-IsDriver :
      (k : Kernel) (r : Request)
      → IsDriver count size k.gives
      → IsDriver count size (xioctl k r).0.gives
  unfolding xioctl next
  xioctl-IsDriver k r h = let (k1, a) = next k in retry-IsDriver a.interruptions k1 r a.works h

  known_format :
      (c : Camera) (fmt : ℕ)
      → IsDriver count size c.kernel.gives
      → (fmt ≡ mjpeg) ⊎ (fmt ≡ yuyv)
      → (c.kernel.gives c.kernel.asked).pixel_format ≡ fmt
      → ((c.kernel.gives c.kernel.asked).pixel_format ≡ mjpeg)
        ⊎ (2 * ((c.kernel.gives c.kernel.asked).height * (c.kernel.gives c.kernel.asked).width)
            ≤ size)
  known_format c fmt h (inl m) e = inl (e ∙ m)
  known_format c fmt h (inr y) e = inr (h.pictures c.kernel.asked (e ∙ y))

  try_formats-Fits :
      (fmts : List ℕ) (c : Camera)
      → All (λ f. (f ≡ mjpeg) ⊎ (f ≡ yuyv)) fmts
      → IsDriver count size c.kernel.gives
      → (try_formats fmts c).1 ≡ true
      → Fits (try_formats fmts c).0
  unfolding try_formats
  try_formats-Fits [] c v h = λ done. absurd (cc done)
  try_formats-Fits (fmt ∷ fmts) c v h =
      let (k, a) = xioctl c.kernel (set_format c.width c.height fmt) in
      let tried = xioctl-IsDriver c.kernel (set_format c.width c.height fmt) h in
      let c1 = record c { kernel = k } in
      if_lem {A = Camera × Bool} (λ r. r.1 ≡ true → Fits r.0) (a.works && a.pixel_format == fmt)
        (
          record c1 {
            pixel_format = a.pixel_format;
            width = a.width;
            height = a.height;
            kernel = (xioctl k (set_parm c.fps)).0;
          },
          true,
        )
        (try_formats fmts c1)
        (λ e done. record {
          driver = xioctl-IsDriver k (set_parm c.fps) tried;
          small = known_format c fmt h v.0 (unfold xioctl next in ground (arith, e));
        })
        (λ e. try_formats-Fits fmts c1 v.1 tried)

  set_at-All :
      (xs : List (Option Region)) (i : ℕ) (b : Region)
      → size ≤ b.1
      → All IsLong xs
      → All IsLong (set_at xs i b)
  set_at-All [] i b h v = tt
  set_at-All (x ∷ xs) zero b h v = (h, v.1)
  set_at-All (x ∷ xs) (suc i) b h v = (v.0, set_at-All xs i b h v.1)

  length-set_at :
      (xs : List (Option Region)) (i : ℕ) (b : Region) → length (set_at xs i b) ≡ length xs
  length-set_at [] i b = refl
  length-set_at (x ∷ xs) zero b = refl
  length-set_at (x ∷ xs) (suc i) b = ap suc (length-set_at xs i b)

  -- A request that the camera makes.
  pub ask-Supplied :
      (c : Camera) (r : Request)
      → Supplied c
      → Supplied (record c { kernel = (xioctl c.kernel r).0 })
  ask-Supplied c r h = record {
    fits = record { driver = xioctl-IsDriver c.kernel r h.fits.driver; small = h.fits.small };
    counted = h.counted;
    long = h.long;
  }

  map_buffer-Supplied :
      (c : Camera) (i : ℕ) (buf : Answer)
      → size ≤ buf.size
      → Supplied c
      → Supplied (map_buffer c i buf).0
  unfolding map_buffer next note
  map_buffer-Supplied c i buf room h =
      let p = (next c.kernel).1 in
      let there : Region = (p.start, buf.size) in
      if_lem {A = Camera × Bool} (λ r. Supplied r.0) p.works _ _
        (λ e. record {
          fits = record { driver = h.fits.driver; small = h.fits.small };
          counted = length-set_at c.buffers i there ∙ h.counted;
          long = set_at-All c.buffers i there room h.long;
        })
        (λ e. record {
          fits = record { driver = h.fits.driver; small = h.fits.small };
          counted = h.counted;
          long = h.long;
        })

  map_buffers-Supplied : (n i : ℕ) (c : Camera) → Supplied c → Supplied (map_buffers n i c).0
  unfolding map_buffers
  map_buffers-Supplied zero i c h = h
  map_buffers-Supplied (suc n) i c h =
      let (k, buf) = xioctl c.kernel (query_buffer i) in
      let c1 = record c { kernel = k } in
      let asked = ask-Supplied c (query_buffer i) h in
      let room : size ≤ buf.size = unfold xioctl next in h.fits.driver.sizes c.kernel.asked in
      let step = map_buffer c1 i buf in
      let mapped = map_buffer-Supplied c1 i buf room asked in
      if_lem {A = Camera × Bool} (λ r. Supplied r.0) buf.works _ (c1, false)
        (λ e.
          if_lem {A = Camera × Bool} (λ r. Supplied r.0) step.1 _ (step.0, false)
            (λ f. map_buffers-Supplied n (suc i) step.0 mapped) (λ f. mapped))
        (λ e. asked)

  replicate-IsLong : (n : ℕ) → All IsLong (replicate n none)
  replicate-IsLong zero = tt
  replicate-IsLong (suc n) = (tt, replicate-IsLong n)

  init_buffers-Supplied :
      (c : Camera) → Fits c → (init_buffers c).1 ≡ true → Supplied (init_buffers c).0
  unfolding init_buffers
  init_buffers-Supplied c h =
      let (k, req) = xioctl c.kernel request_buffers in
      let c1 = record c { kernel = k } in
      let all = replicate req.count none in
      let vector : Supplied (record c1 { buffers = all }) = record {
        fits = record {
          driver = xioctl-IsDriver c.kernel request_buffers h.driver;
          small = h.small;
        };
        counted =
            length-replicate req.count none ∙ unfold xioctl next in h.driver.counts c.kernel.asked;
        long = replicate-IsLong req.count;
      } in
      if_lem {A = Camera × Bool} (λ r. r.1 ≡ true → Supplied r.0) req.works _ (c1, false)
        (λ e.
          if_lem {A = Camera × Bool} (λ r. r.1 ≡ true → Supplied r.0) (ltb req.count 2) (c1, false)
            _ (λ f done. absurd (cc done))
            (λ f done. map_buffers-Supplied req.count 0 (record c1 { buffers = all }) vector))
        (λ e done. absurd (cc done))

  queue_buffers-Supplied : (n i : ℕ) (c : Camera) → Supplied c → Supplied (queue_buffers n i c).0
  unfolding queue_buffers
  queue_buffers-Supplied zero i c h = h
  queue_buffers-Supplied (suc n) i c h =
      let asked = ask-Supplied c (queue_buffer i) h in
      if_lem {A = Camera × Bool} (λ r. Supplied r.0) (xioctl c.kernel (queue_buffer i)).1.works _ _
        (λ e. queue_buffers-Supplied n (suc i) _ asked) (λ e. asked)

  switch_on-Supplied : (c : Camera) → Supplied c → Supplied (switch_on c).0
  unfolding switch_on
  switch_on-Supplied c h =
      let asked = ask-Supplied c stream_on h in
      if_lem {A = Camera × Bool} (λ r. Supplied r.0) (xioctl c.kernel stream_on).1.works _ _
        (λ e. record {
          fits = record { driver = asked.fits.driver; small = asked.fits.small };
          counted = asked.counted;
          long = asked.long;
        })
        (λ e. asked)

  -- Of a step of `open`: when it works, the camera has the driver's buffers.
  abbrev Supplies : Camera × Bool → Type 0
  Supplies r = r.1 ≡ true → Supplied r.0

  start_streaming-Supplies : (c : Camera) → Supplied c → Supplies (start_streaming c)
  unfolding start_streaming
  start_streaming-Supplies c h =
      let queue = queue_buffers (length c.buffers) 0 in
      let queued = queue_buffers-Supplied (length c.buffers) 0 c h in
      and_then_lem Supplies queue switch_on c (λ f done. switch_on-Supplied (queue c).0 queued)
        (λ f done. queued)

  format-Supplies :
      (c : Camera)
      → IsDriver count size c.kernel.gives
      → Supplies (and_then init_format (and_then init_buffers start_streaming) c)
  unfolding init_format
  format-Supplies c h =
      and_then_lem Supplies init_format (and_then init_buffers start_streaming) c
        (λ set.
          let c1 = (init_format c).0 in
          let fits = try_formats-Fits (mjpeg ∷ yuyv ∷ []) c (inl refl, (inr refl, tt)) h set in
          and_then_lem Supplies init_buffers start_streaming c1
            (λ got.
              start_streaming-Supplies (init_buffers c1).0 (init_buffers-Supplied c1 fits got))
            (λ got done. absurd (cc done)))
        (λ set done. absurd (cc done))

  -- When `open` works, the camera has the driver's buffers, and the size of its pictures.
  pub open_camera-Supplied :
      (c : Camera)
      → IsDriver count size c.kernel.gives
      → (open_camera c).1 ≡ true
      → Supplied (open_camera c).0
  unfolding open_camera open_device next note check_capabilities
  open_camera-Supplied c h =
      let rest = and_then init_format (and_then init_buffers start_streaming) in
      let opened = (open_device c).0 in
      let driven : IsDriver count size opened.kernel.gives =
        if_lem {A = Camera × Bool} (λ r. IsDriver count size r.0.kernel.gives)
          (next c.kernel).1.works _ _ (λ e. h) (λ e. h) in
      and_then_lem Supplies open_device (and_then check_capabilities rest) c
        (λ e.
          and_then_lem Supplies check_capabilities rest opened
            (λ f.
              format-Supplies (check_capabilities opened).0
                (xioctl-IsDriver opened.kernel query_cap driven))
            (λ f done. absurd (cc done)))
        (λ e done. absurd (cc done))
