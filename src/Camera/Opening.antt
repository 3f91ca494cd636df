-- ===== src/Camera/Opening.antt =====
-- terminal/src/capture/V4L2Camera.cpp: what `open` leaves, on success and after each failure.
use qt_s5p6818_face_tracking.Base.{
  ℕ, zero, suc, ◌≡◌, refl, sym, ap, ◌∙◌, subst, Bool, true, false, List, [], some, length,
  if◌then◌else◌, if_lem, map,
}
use qt_s5p6818_face_tracking.Camera.{
  Camera, Region, opened, stream_on, queue_buffer, note, next, xioctl, init_format, init_buffers,
  queue_buffers, switch_on, and_then, start_streaming, check_capabilities, open_device, open_camera,
}
use qt_s5p6818_face_tracking.Camera.Resources.{
  Held, Holds, note_lem, xioctl_lem, regions, queue_buffer-IsNeutral,
}
use qt_s5p6818_face_tracking.Camera.Mapping.{
  IsTracked, IsOpening, IsFresh, opening-IsTracked, ask, check_capabilities-IsFresh,
  init_format-IsFresh, init_buffers-Mapped,
}

queue_buffers-IsOpening : (n i : ℕ) (c : Camera) → IsOpening c → IsOpening (queue_buffers n i c).0
unfolding queue_buffers
queue_buffers-IsOpening zero i c h = h
queue_buffers-IsOpening (suc n) i c h =
    let (k, a) = xioctl c.kernel (queue_buffer i) in
    let c1 = record c { kernel = k } in
    let asked = ask c (queue_buffer i) (queue_buffer-IsNeutral i) h in
    if_lem (λ r. IsOpening r.0) a.works (queue_buffers n (suc i) c1) (c1, false)
      (λ e. queue_buffers-IsOpening n (suc i) c1 asked) (λ e. asked)

queue_buffers-buffers : (n i : ℕ) (c : Camera) → (queue_buffers n i c).0.buffers ≡ c.buffers
unfolding queue_buffers
queue_buffers-buffers zero i c = refl
queue_buffers-buffers (suc n) i c =
    let (k, a) = xioctl c.kernel (queue_buffer i) in
    let c1 = record c { kernel = k } in
    if_lem (λ r. r.0.buffers ≡ c.buffers) a.works (queue_buffers n (suc i) c1) (c1, false)
      (λ e. queue_buffers-buffers n (suc i) c1) (λ e. refl)

-- What `open` leaves: on success the camera streams, and all of its buffers are mapped.
abbrev pub Opened : Camera × Bool → Type 0
Opened r =
    IsTracked r.0
    × (r.1 ≡ true → (r.0.streaming ≡ true) × ((bs : List Region) × (r.0.buffers ≡ map some bs)))

not_open : (c : Camera) → IsTracked c → Opened (c, false)
not_open c h = (h, λ done. absurd (cc done))

switch_on-Opened :
    (c : Camera) (bs : List Region) → IsOpening c → c.buffers ≡ map some bs → Opened (switch_on c)
unfolding switch_on
switch_on-Opened c bs h e =
    let (k, a) = xioctl c.kernel stream_on in
    let c1 = record c { kernel = k } in
    let idle : Held = record { fd = true; streams = false; maps = regions c.buffers } in
    let runs : Held = record { fd = true; streams = true; maps = regions c.buffers } in
    if_lem Opened a.works (record c1 { streaming = true }, true) (c1, false)
      (λ works. (
        record {
          tracked =
              subst (λ b. Holds k (record { fd = b; streams = true; maps = regions c.buffers }))
                (sym h.opened)
                (xioctl_lem c.kernel stream_on idle runs h.opening refl (rw works refl));
          is_open = λ f. h.opened;
        },
        λ done. (refl, (bs, e)),
      ))
      (λ fails. not_open c1 (
        opening-IsTracked c1 (record {
          opened = h.opened;
          idle = h.idle;
          opening = xioctl_lem c.kernel stream_on idle idle h.opening refl (rw fails refl);
        })))

-- `first() && second()`, by what the first leaves.
pub and_then_lem :
    (P : Camera × Bool → Type 0) (first second : Camera → Camera × Bool) (c : Camera)
    → ((first c).1 ≡ true → P (second (first c).0))
    → ((first c).1 ≡ false → P ((first c).0, false))
    → P (and_then first second c)
and_then_lem P first second c go stop =
    if_lem P (first c).1 (second (first c).0) ((first c).0, false) go stop

start_streaming-Opened :
    (c : Camera) (bs : List Region)
    → IsOpening c
    → c.buffers ≡ map some bs
    → Opened (start_streaming c)
unfolding start_streaming
start_streaming-Opened c bs h e =
    let queue = queue_buffers (length c.buffers) 0 in
    let queued = queue_buffers-IsOpening (length c.buffers) 0 c h in
    and_then_lem Opened queue switch_on c
      (λ done.
        switch_on-Opened (queue c).0 bs queued (queue_buffers-buffers (length c.buffers) 0 c ∙ e))
      (λ lost. not_open (queue c).0 (opening-IsTracked (queue c).0 queued))

buffers-Opened : (c : Camera) → IsFresh c → Opened (and_then init_buffers start_streaming c)
buffers-Opened c h =
    let r = init_buffers c in
    let mapped = init_buffers-Mapped c h in
    and_then_lem Opened init_buffers start_streaming c
      (λ done. let (bs, e) = mapped.1 done in start_streaming-Opened r.0 bs mapped.0 e)
      (λ lost. not_open r.0 (opening-IsTracked r.0 mapped.0))

fresh-Opened :
    (c : Camera)
    → IsFresh c
    → Opened (
        and_then check_capabilities
          (and_then init_format (and_then init_buffers start_streaming))
          c)
fresh-Opened c h =
    let able = check_capabilities-IsFresh c h in
    let c1 = (check_capabilities c).0 in
    let set = init_format-IsFresh c1 able in
    and_then_lem Opened check_capabilities
      (and_then init_format (and_then init_buffers start_streaming)) c
      (λ done.
        and_then_lem Opened init_format (and_then init_buffers start_streaming) c1
          (λ fits. buffers-Opened (init_format c1).0 set)
          (λ refused. not_open (init_format c1).0 (opening-IsTracked (init_format c1).0 set.0)))
      (λ lost. not_open c1 (opening-IsTracked c1 able.0))

-- `open` of a camera that is closed and of which the kernel holds nothing.
pub open_camera-Opened :
    (c : Camera)
    → c.streaming ≡ false
    → c.buffers ≡ []
    → Holds c.kernel (record { fd = false; streams = false; maps = [] })
    → Opened (open_camera c)
unfolding open_camera open_device next
open_camera-Opened c idle none_yet h =
    let (k, a) = next c.kernel in
    let there = record c { fd = true; kernel = note k opened } in
    let missing = record c { fd = false; kernel = k } in
    let empty : regions c.buffers ≡ [] = ap regions none_yet in
    let rest =
      and_then check_capabilities (and_then init_format (and_then init_buffers start_streaming)) in
    if_lem {A = Camera × Bool} (λ r. Opened (if r.1 then rest r.0 else (r.0, false))) a.works
      (there, true) (missing, false)
      (λ e. fresh-Opened there (
        record {
          opened = refl;
          idle = idle;
          opening =
              subst (λ m. Holds (note k opened) (record { fd = true; streams = false; maps = m }))
                (sym empty)
                (note_lem k opened (record { fd = false; streams = false; maps = [] })
                  (record { fd = true; streams = false; maps = [] }) h refl);
        },
        none_yet,
      ))
      (λ e.
        not_open missing
          (record { tracked = rw (idle, empty) h; is_open = λ f. absurd (cc (sym idle ∙ f)) }))
