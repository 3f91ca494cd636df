-- ===== src/Camera/Grab.antt =====
-- terminal/src/capture/V4L2Camera.cpp: `grab`. Decoding by OpenCV, from the bytes that a buffer
-- holds at that time, is a parameter.
use qt_s5p6818_face_tracking.Base.{
  ℕ, zero, suc, Bool, not, List, [], ◌∷◌, Option, none, some, ◌==◌, if◌then◌else◌,
}
use qt_s5p6818_face_tracking.Camera.{
  Camera, Region, Answer, next, xioctl, dequeue, queue_buffer, mjpeg,
}

-- `imdecode` of so many bytes at a start, and the conversion of a YUYV picture of a height and width.
pub record Decoder (Image : Type 0) : Type 0 where
  pub is_empty : Image → Bool
  pub imdecode : ℕ → ℕ → Image
  pub from_yuyv : ℕ → ℕ → ℕ → Image

-- `outside` is an index beyond the vector of buffers; `no_frame` is the result false.
pub data Grabbed (Image : Type 0) : Type 0 where
  no_frame outside : Grabbed Image
  picture : Image → Grabbed Image

unfoldable pub buffer_at : List (Option Region) → ℕ → Option (Option Region)
buffer_at [] i = none
buffer_at (x ∷ xs) zero = some x
buffer_at (x ∷ xs) (suc i) = buffer_at xs i

-- `start` of a buffer; the null pointer is 0.
unfoldable pub start_of : Option Region → ℕ
start_of none = 0
start_of (some b) = b.0

module _ {Image : Type 0} (d : Decoder Image) where
  unfoldable pub decode : Camera → Answer → Option Region → Image
  unfolding start_of
  decode c buf b =
      if c.pixel_format == mjpeg
      then d.imdecode (start_of b) buf.bytes_used
      else d.from_yuyv (start_of b) c.height c.width

  -- The frame of a buffer, which goes back to the driver after it has been decoded.
  unfoldable pub take_frame : Camera → Answer → Option (Option Region) → Camera × Grabbed Image
  unfolding decode xioctl
  take_frame c buf none = (c, outside)
  take_frame c buf (some b) =
      let image = decode c buf b in
      (
        record c { kernel = (xioctl c.kernel (queue_buffer buf.index)).0 },
        if d.is_empty image then no_frame else picture image,
      )

  unfoldable pub dequeue_frame : Camera → Camera × Grabbed Image
  unfolding xioctl buffer_at take_frame
  dequeue_frame c =
      let (k, buf) = xioctl c.kernel dequeue in
      let c1 = record c { kernel = k } in
      let taken = take_frame c1 buf (buffer_at c1.buffers buf.index) in
      if buf.works then taken else (c1, no_frame)

  unfoldable pub grab : Camera → Camera × Grabbed Image
  unfolding next dequeue_frame
  grab c =
      let (k, ready) = next c.kernel in
      let c1 = record c { kernel = k } in
      let taken = dequeue_frame c1 in
      if not c.fd then (c, no_frame) else if ready.works then taken else (c1, no_frame)

  -- Several grabs, one after another, with what each gives.
  abbrev pub grabs : ℕ → Camera → Camera
  grabs zero c = c
  grabs (suc n) c = grabs n (grab c).0
