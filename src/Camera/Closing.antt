-- ===== src/Camera/Closing.antt =====
-- terminal/src/capture/V4L2Camera.cpp: `open`, `grab` and `close` leave nothing behind.
use qt_s5p6818_face_tracking.Base.{
  ℕ, zero, suc, ◌≡◌, refl, sym, ◌∙◌, subst, Bool, true, false, not, List, [], map, Option, none,
  some, if◌then◌else◌, if_lem, Bool-cases, inl, inr, arith,
}
use qt_s5p6818_face_tracking.Camera.{
  Camera, Region, Answer, Request, closed, create, stream_off, note, next, xioctl, unmap_all,
  switch_off, close_device, close_camera, open_camera, dequeue, queue_buffer,
}
use qt_s5p6818_face_tracking.Camera.Grab.{
  Decoder, Grabbed, no_frame, buffer_at, take_frame, dequeue_frame, grab, grabs,
}
use qt_s5p6818_face_tracking.Camera.Mapping.{IsTracked}
use qt_s5p6818_face_tracking.Camera.Opening.{open_camera-Opened}
use qt_s5p6818_face_tracking.Camera.Resources.{
  Held, Holds, IsNeutral, nothing_held, note_lem, xioctl_lem, neutral_lem, regions, unmap_all_lem,
  dequeue-IsNeutral, queue_buffer-IsNeutral,
}

-- Closing the descriptor ends the stream too.
close_device_lem :
    (c : Camera) (streams : Bool)
    → Holds c.kernel (record { fd = c.fd; streams = streams; maps = [] })
    → (c.fd ≡ false → streams ≡ false)
    → Holds (close_device c).kernel nothing_held
unfolding close_device
close_device_lem c streams h off =
    if_lem (λ d. Holds d.kernel nothing_held) c.fd
      (record c { kernel = note c.kernel closed; fd = false }) c
      (λ e.
        note_lem c.kernel closed (record { fd = c.fd; streams = streams; maps = [] }) nothing_held h
          (rw e refl))
      (λ e.
        subst (λ b. Holds c.kernel (record { fd = b; streams = false; maps = [] })) e
          (subst (λ b. Holds c.kernel (record { fd = c.fd; streams = b; maps = [] })) (off e) h))

-- What the end of the stream leaves: a `STREAMOFF` that fails leaves it running.
abbrev Off : Camera → Camera → Type 0
Off c d =
    (streams : Bool) × (Holds d.kernel
        (record { fd = c.fd; streams = streams; maps = regions c.buffers })
      × ((d.fd ≡ c.fd) × ((d.buffers ≡ c.buffers) × (c.fd ≡ false → streams ≡ false))))

switch_off_lem : (c : Camera) → IsTracked c → Off c (switch_off c)
unfolding switch_off
switch_off_lem c h =
    let k = (xioctl c.kernel stream_off).0 in
    let works = (c.kernel.gives c.kernel.asked).works in
    let before : Held = record { fd = c.fd; streams = c.streaming; maps = regions c.buffers } in
    if_lem (Off c) c.streaming (record c { kernel = k; streaming = false }) c
      (λ e.
        let on = h.is_open e in
        let closed_off : (streams : Bool) → c.fd ≡ false → streams ≡ false =
          λ streams f. absurd (cc (sym on ∙ f)) in
        elim (Bool-cases works) [
          | inl w ↦ (
            false,
            (
              xioctl_lem c.kernel stream_off before
                  (record { fd = c.fd; streams = false; maps = regions c.buffers }) h.tracked on
                  (rw (w, e) refl),
              (refl, (refl, closed_off false)),
            ),
          )
          | inr w ↦ (
            c.streaming,
            (
              xioctl_lem c.kernel stream_off before before h.tracked on (rw (w, on) refl),
              (refl, (refl, closed_off c.streaming)),
            ),
          )
        ])
      (λ e. (c.streaming, (h.tracked, (refl, (refl, λ f. e)))))

close_camera_lem : (c : Camera) → IsTracked c → Holds (close_camera c).kernel nothing_held
unfolding close_camera
close_camera_lem c h =
    let c1 = switch_off c in
    let (streams, (held, (fd, (buffers, off)))) = switch_off_lem c h in
    close_device_lem (record c1 { kernel = unmap_all c1.buffers c1.kernel; buffers = [] }) streams
      (unmap_all_lem c1.buffers c1.kernel (record { fd = c1.fd; streams = streams; maps = [] })
        (rw (fd, buffers) held))
      (λ e. off (sym fd ∙ e))

-- A request that changes nothing of what the camera holds.
ask-IsTracked :
    (c : Camera) (r : Request)
    → IsNeutral r
    → c.fd ≡ true
    → IsTracked c
    → IsTracked (record c { kernel = (xioctl c.kernel r).0 })
ask-IsTracked c r quiet on h = record {
  tracked =
      neutral_lem c.kernel r (record { fd = c.fd; streams = c.streaming; maps = regions c.buffers })
        quiet h.tracked on;
  is_open = h.is_open;
}

module _ {Image : Type 0} (d : Decoder Image) where
  take_frame-IsTracked :
      (c : Camera) (buf : Answer) (b : Option (Option Region))
      → c.fd ≡ true
      → IsTracked c
      → IsTracked (take_frame d c buf b).0
  unfolding take_frame
  take_frame-IsTracked c buf none on h = h
  take_frame-IsTracked c buf (some b) on h =
      ask-IsTracked c (queue_buffer buf.index) (queue_buffer-IsNeutral buf.index) on h

  grab-IsTracked : (c : Camera) → IsTracked c → IsTracked (grab d c).0
  unfolding grab dequeue_frame next
  grab-IsTracked c h =
      let c1 = record c { kernel = (next c.kernel).0 } in
      let polled : IsTracked c1 = record { tracked = h.tracked; is_open = h.is_open } in
      let (k, buf) = xioctl c1.kernel dequeue in
      let c2 = record c1 { kernel = k } in
      let taken = take_frame d c2 buf (buffer_at c2.buffers buf.index) in
      let read = if buf.works then taken else (c2, no_frame) in
      let ready = (next c.kernel).1.works in
      if_lem {A = Camera × Grabbed Image} (λ r. IsTracked r.0) (not c.fd) (c, no_frame)
        (if ready then read else (c1, no_frame)) (λ closed. h)
        (λ on.
          let fd : c.fd ≡ true = ground arith in
          let asked = ask-IsTracked c1 dequeue dequeue-IsNeutral fd polled in
          if_lem {A = Camera × Grabbed Image} (λ r. IsTracked r.0) ready read (c1, no_frame)
            (λ e.
              if_lem {A = Camera × Grabbed Image} (λ r. IsTracked r.0) buf.works taken
                (c2, no_frame)
                (λ works. take_frame-IsTracked c2 buf (buffer_at c2.buffers buf.index) fd asked)
                (λ fails. asked))
            (λ e. polled))

  pub grabs-IsTracked : (n : ℕ) (c : Camera) → IsTracked c → IsTracked (grabs d n c)
  grabs-IsTracked zero c h = h
  grabs-IsTracked (suc n) c h = grabs-IsTracked n (grab d c).0 (grab-IsTracked c h)

  -- Whatever each call to the kernel gives, and after any number of grabs: when `open` succeeds
  -- the camera streams and all its buffers are mapped, and when `close` has run, each mapping has
  -- been released once and no descriptor or stream is left.
  pub close_camera-nothing_held :
      (width height fps n : ℕ) (gives : ℕ → Answer)
      → let c = create width height fps (record { log = []; asked = 0; gives = gives }) in
        let r = open_camera c in
        (r.1 ≡ true → (r.0.streaming ≡ true) × ((bs : List Region) × (r.0.buffers ≡ map some bs)))
        × Holds (close_camera (grabs d n r.0)).kernel nothing_held
  unfolding create
  close_camera-nothing_held width height fps n gives =
      let c = create width height fps (record { log = []; asked = 0; gives = gives }) in
      let opened = open_camera-Opened c refl refl refl in
      (
        opened.1,
        close_camera_lem (grabs d n (open_camera c).0)
            (grabs-IsTracked n (open_camera c).0 opened.0),
      )
