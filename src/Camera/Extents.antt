-- ===== src/Camera/Extents.antt =====
-- terminal/src/capture/V4L2Camera.cpp: which memory `grab` hands to OpenCV.
use qt_s5p6818_face_tracking.Base.{
  ℕ, zero, suc, ◌*◌, ◌≤◌, ◌<◌, ◌≡◌, refl, ◌∙◌, ap, subst, true, false, not, Bool-cases, inl, inr,
  List, [], ◌∷◌, map, Option, none, some, All, length, ◌==◌, if◌then◌else◌, if_lem, arith,
}
use qt_s5p6818_face_tracking.Camera.{
  Camera, Region, Answer, create, next, xioctl, dequeue, queue_buffer, open_camera, mjpeg,
}
use qt_s5p6818_face_tracking.Camera.Closing.{grabs-IsTracked}
use qt_s5p6818_face_tracking.Camera.Grab.{
  Decoder, Grabbed, no_frame, outside, picture, buffer_at, start_of, decode, take_frame,
  dequeue_frame, grab, grabs,
}
use qt_s5p6818_face_tracking.Camera.Driver.{
  IsDriver, IsLong, Supplied, ask-Supplied, open_camera-Supplied,
}
use qt_s5p6818_face_tracking.Camera.Opening.{open_camera-Opened}
use qt_s5p6818_face_tracking.Camera.Resources.{Holds, regions}

-- In place of a picture: the start and the number of the bytes that OpenCV is given for it, two for
-- a pixel of a YUYV picture.
abbrev pub extents : Decoder Region
extents = record {
  is_empty = λ r. false;
  imdecode = λ start n. (start, n);
  from_yuyv = λ start height width. (start, 2 * (height * width));
}

-- The bytes that a frame is taken to have.
abbrev pub frame_size : Camera → Answer → ℕ
frame_size c buf = if c.pixel_format == mjpeg then buf.bytes_used else 2 * (c.height * c.width)

-- The next frame is in one of the buffers that were requested, and the buffer is as long as it.
abbrev GivesBuffer : Camera → Type 0
GivesBuffer c =
    let buf = c.kernel.gives (suc c.kernel.asked) in
    (buf.index < length c.buffers)
    × ((b : Region) → buffer_at c.buffers buf.index ≡ some (some b) → frame_size c buf ≤ b.1)

-- The bytes lie in one buffer of the list.
abbrev pub IsInside : List (Option Region) → Grabbed Region → Type 0
IsInside bs no_frame = Unit
IsInside bs outside = ⊥
IsInside bs (picture r) =
    (i : ℕ) × (b : Region) × (buffer_at bs i ≡ some (some b)) × (r.0 ≡ b.0) × (r.1 ≤ b.1)

buffer_at_mapped :
    (bs : List Region) (i : ℕ)
    → i < length (map some bs)
    → (b : Region) × (buffer_at (map some bs) i ≡ some (some b))
unfolding buffer_at
buffer_at_mapped [] i h = absurd (omega arith)
buffer_at_mapped (b ∷ bs) zero h = (b, refl)
buffer_at_mapped (b ∷ bs) (suc i) h = buffer_at_mapped bs i (omega arith)

take_frame-IsInside :
    (c : Camera) (buf : Answer) (b : Region)
    → buffer_at c.buffers buf.index ≡ some (some b)
    → frame_size c buf ≤ b.1
    → IsInside c.buffers (take_frame extents c buf (buffer_at c.buffers buf.index)).1
unfolding take_frame decode start_of
take_frame-IsInside c buf b e fits = elim (Bool-cases (c.pixel_format == mjpeg)) [
  | inl m ↦ rw (e, m) (buf.index, b, e, refl, rw m at fits)
  | inr m ↦ rw (e, m) (buf.index, b, e, refl, rw m at fits)
]

-- The three ways of a grab without a frame, and the one with a frame.
module _ {Image : Type 0} (d : Decoder Image) (P : Camera × Grabbed Image → Type 0) (c : Camera)
    (none_yet : P (c, no_frame)) where
  grab-cases :
      let c1 = record c { kernel = (next c.kernel).0 } in
      let (k, buf) = xioctl c1.kernel dequeue in
      let c2 = record c { kernel = k } in
      P (c1, no_frame)
      → P (c2, no_frame)
      → P (take_frame d c2 buf (buffer_at c.buffers buf.index))
      → P (grab d c)
  unfolding grab dequeue_frame next
  grab-cases polled asked taken =
      if_lem P (not c.fd) (c, no_frame) _ (λ e. none_yet)
        (λ e.
          if_lem P (next c.kernel).1.works _ (record c { kernel = (next c.kernel).0 }, no_frame)
            (λ f. if_lem P (xioctl (next c.kernel).0 dequeue).1.works _ _ (λ g. taken) (λ g. asked))
            (λ f. polled))

grab-IsInside :
    (c : Camera) (bs : List Region)
    → c.buffers ≡ map some bs
    → GivesBuffer c
    → IsInside c.buffers (grab extents c).1
unfolding xioctl next
grab-IsInside c bs mapped (known, long) =
    let buf = c.kernel.gives (suc c.kernel.asked) in
    let (b, there) =
      buffer_at_mapped bs buf.index
        (subst (λ (x : List (Option Region)). buf.index < length x) mapped known) in
    let found : buffer_at c.buffers buf.index ≡ some (some b) =
      ap (λ (x : List (Option Region)). buffer_at x buf.index) mapped ∙ there in
    grab-cases extents (λ r. IsInside c.buffers r.1) c tt tt tt
      (take_frame-IsInside (record c { kernel = (xioctl (next c.kernel).0 dequeue).0 }) buf b found
        (long b found))

inner_of : Option (Option Region) → Region → Region
inner_of (some (some b)) x = b
inner_of _ x = x

buffer_at-IsLong :
    (count size : ℕ) (bs : List (Option Region)) (i : ℕ) (b : Region)
    → All (IsLong count size) bs
    → buffer_at bs i ≡ some (some b)
    → size ≤ b.1
unfolding buffer_at inner_of
buffer_at-IsLong count size [] i b h e = absurd (cc e)
buffer_at-IsLong count size (none ∷ bs) zero b h e = absurd (cc e)
buffer_at-IsLong count size (some x ∷ bs) zero b h e =
    subst (λ y. size ≤ y.1) (ap (λ o. inner_of o x) e) h.0
buffer_at-IsLong count size (x ∷ bs) (suc i) b h e = buffer_at-IsLong count size bs i b h.1 e

module _ (count size : ℕ) where
  Supplied-GivesBuffer : (c : Camera) → Supplied count size c → GivesBuffer c
  Supplied-GivesBuffer c h =
      let driver = h.fits.driver in
      let k = suc c.kernel.asked in
      (
        omega (arith, h.counted, driver.indices k),
        λ b e.
            let room = buffer_at-IsLong count size c.buffers _ b h.long e in
            if_lem (λ n. n ≤ b.1) (c.pixel_format == mjpeg) (c.kernel.gives k).bytes_used
              (2 * (c.height * c.width)) (λ f. omega (arith, driver.used k, room))
              (λ f. elim h.fits.small [
                | inl m ↦ absurd (ground (arith, m, f))
                | inr small ↦ omega (arith, small, room)
              ]),
      )

  module _ {Image : Type 0} (d : Decoder Image) where
    take_frame-Supplied :
        (c : Camera) (buf : Answer) (b : Option (Option Region))
        → Supplied count size c
        → Supplied count size (take_frame d c buf b).0
    unfolding take_frame
    take_frame-Supplied c buf none h = h
    take_frame-Supplied c buf (some b) h = ask-Supplied count size c (queue_buffer buf.index) h

    grab-Supplied : (c : Camera) → Supplied count size c → Supplied count size (grab d c).0
    unfolding next
    grab-Supplied c h =
        let polled : Supplied count size (record c { kernel = (next c.kernel).0 }) = record {
          fits = record { driver = h.fits.driver; small = h.fits.small };
          counted = h.counted;
          long = h.long;
        } in
        let asked =
          ask-Supplied count size (record c { kernel = (next c.kernel).0 }) dequeue polled in
        let (k, buf) = xioctl (next c.kernel).0 dequeue in
        grab-cases d (λ r. Supplied count size r.0) c h polled asked
          (take_frame-Supplied (record c { kernel = k }) buf (buffer_at c.buffers buf.index) asked)

    grabs-Supplied :
        (n : ℕ) (c : Camera) → Supplied count size c → Supplied count size (grabs d n c)
    grabs-Supplied zero c h = h
    grabs-Supplied (suc n) c h = grabs-Supplied n (grab d c).0 (grab-Supplied c h)

module _ {Image : Type 0} (d : Decoder Image) where
  take_frame-same_buffers :
      (c : Camera) (buf : Answer) (b : Option (Option Region))
      → (take_frame d c buf b).0.buffers ≡ c.buffers
  unfolding take_frame
  take_frame-same_buffers c buf none = refl
  take_frame-same_buffers c buf (some b) = refl

  grab-same_buffers : (c : Camera) → (grab d c).0.buffers ≡ c.buffers
  grab-same_buffers c =
      let (k, buf) = xioctl (next c.kernel).0 dequeue in
      grab-cases d (λ r. r.0.buffers ≡ c.buffers) c refl refl refl
        (take_frame-same_buffers (record c { kernel = k }) buf (buffer_at c.buffers buf.index))

  grabs-same_buffers : (n : ℕ) (c : Camera) → (grabs d n c).buffers ≡ c.buffers
  grabs-same_buffers zero c = refl
  grabs-same_buffers (suc n) c = grabs-same_buffers n (grab d c).0 ∙ grab-same_buffers c

-- With a driver that keeps to what Video4Linux documents: after `open` has succeeded and any
-- frames have been grabbed, the bytes that the next `grab` hands to OpenCV lie in one buffer, and
-- the buffers are the mappings that the process holds.
pub grab-mapped :
    {Image : Type 0} (d : Decoder Image) (width height fps n count size : ℕ) (gives : ℕ → Answer)
    → let start = create width height fps (record { log = []; asked = 0; gives = gives }) in
      let c = grabs d n (open_camera start).0 in
      IsDriver count size gives
      → (open_camera start).1 ≡ true
      → IsInside c.buffers (grab extents c).1
        × Holds c.kernel (record { fd = c.fd; streams = c.streaming; maps = regions c.buffers })
unfolding create
grab-mapped d width height fps n count size gives driver opened =
    let start = create width height fps (record { log = []; asked = 0; gives = gives }) in
    let r = (open_camera start).0 in
    let (tracked, ready) = open_camera-Opened start refl refl refl in
    let (streams, (bs, mapped)) = ready opened in
    let supplied =
      grabs-Supplied count size d n r (open_camera-Supplied count size start driver opened) in
    (
      grab-IsInside (grabs d n r) bs (grabs-same_buffers d n r ∙ mapped)
          (Supplied-GivesBuffer count size (grabs d n r) supplied),
      (grabs-IsTracked d n r tracked).tracked,
    )
