-- ===== src/Camera.antt =====
-- terminal/src/capture/V4L2Camera.cpp: the camera driver over Video4Linux. The kernel's side is the
-- log of what happened to it, and what each call gives is an argument. The device is the parameter of
-- one camera, so its name and the descriptor's number are left out; `fd` is whether there is one.
pub mod Grab
pub mod Resources
pub mod Mapping
pub mod Opening
pub mod Driver
pub mod Closing
pub mod Extents
use qt_s5p6818_face_tracking.Base.{
  ℕ, zero, suc, ◌+◌, ◌-◌, Bool, true, false, not, ◌&&◌, List, [], ◌∷◌, ◌++◌, Bytes, Option, none,
  some, length, take, drop, replicate, ltb, ◌==◌, if◌then◌else◌,
}

-- The requests of `ioctl`, with the fields that the code fills in.
pub data Request : Type 0 where
  query_cap request_buffers dequeue stream_on stream_off : Request
  set_format : ℕ → ℕ → ℕ → Request
  set_parm : ℕ → Request
  query_buffer queue_buffer : ℕ → Request

-- The start and the length of a mapping.
abbrev pub Region : Type 0
Region = ℕ × ℕ

-- What happened, with whether an `ioctl` worked.
pub data Event : Type 0 where
  opened closed : Event
  ioctl : Request → Bool → Event
  mapped unmapped : Region → Event

-- What one call gives: the times that a signal interrupts it before it returns, whether it works (for
-- `poll`, that a frame is ready), and the fields that it may set.
pub record Answer : Type 0 where
  pub interruptions : ℕ
  pub works : Bool
  pub has_capture : Bool
  pub has_streaming : Bool
  pub pixel_format : ℕ
  pub width : ℕ
  pub height : ℕ
  pub count : ℕ
  pub start : ℕ
  pub size : ℕ
  pub index : ℕ
  pub bytes_used : ℕ

pub record Kernel : Type 0 where
  pub log : List Event
  pub asked : ℕ
  pub gives : ℕ → Answer

pub record Camera : Type 0 where
  pub width : ℕ
  pub height : ℕ
  pub fps : ℕ
  pub fd : Bool
  pub pixel_format : ℕ
  pub buffers : List (Option Region)
  pub streaming : Bool
  pub kernel : Kernel

-- The constructor.
unfoldable pub create : ℕ → ℕ → ℕ → Kernel → Camera
create width height fps kernel = record {
  width = width;
  height = height;
  fps = fps;
  fd = false;
  pixel_format = 0;
  buffers = [];
  streaming = false;
  kernel = kernel;
}

unfoldable pub note : Kernel → Event → Kernel
note k e = record k { log = k.log ++ e ∷ [] }

-- The answer to the next call.
unfoldable pub next : Kernel → Kernel × Answer
next k = (record k { asked = suc k.asked }, k.gives k.asked)

-- The loop of `xioctl` while it is interrupted, then the call that is not.
unfoldable pub retry : ℕ → Kernel → Request → Bool → Kernel
unfolding note
retry zero k r works = note k (ioctl r works)
retry (suc n) k r works = retry n (note k (ioctl r false)) r works

unfoldable pub xioctl : Kernel → Request → Kernel × Answer
unfolding next retry
xioctl k r = let (k', a) = next k in (retry a.interruptions k' r a.works, a)

abbrev pub mjpeg : ℕ
mjpeg = 0x47504a4d

abbrev pub yuyv : ℕ
yuyv = 0x56595559

-- The candidates in turn.
unfoldable pub try_formats : List ℕ → Camera → Camera × Bool
unfolding xioctl
try_formats [] c = (c, false)
try_formats (fmt ∷ fmts) c =
    let (k, a) = xioctl c.kernel (set_format c.width c.height fmt) in
    let c1 = record c { kernel = k } in
    let later = try_formats fmts c1 in
    if a.works && a.pixel_format == fmt
    then (
      record c1 {
        pixel_format = a.pixel_format;
        width = a.width;
        height = a.height;
        kernel = (xioctl k (set_parm c.fps)).0;
      },
      true,
    )
    else later

unfoldable pub init_format : Camera → Camera × Bool
unfolding try_formats
init_format c = try_formats (mjpeg ∷ yuyv ∷ []) c

-- `buffers_[i] = b`
abbrev pub set_at : List (Option Region) → ℕ → Region → List (Option Region)
set_at [] i b = []
set_at (x ∷ xs) zero b = some b ∷ xs
set_at (x ∷ xs) (suc i) b = x ∷ set_at xs i b

-- The `mmap` of buffer `i`.
unfoldable pub map_buffer : Camera → ℕ → Answer → Camera × Bool
unfolding next note
map_buffer c i buf =
    let (k, p) = next c.kernel in
    let there : Region = (p.start, buf.size) in
    if p.works
    then (record c { buffers = set_at c.buffers i there; kernel = note k (mapped there) }, true)
    else (record c { kernel = k }, false)

-- The loop over the buffers, `n` of them from `i` on.
unfoldable pub map_buffers : ℕ → ℕ → Camera → Camera × Bool
unfolding xioctl map_buffer
map_buffers zero i c = (c, true)
map_buffers (suc n) i c =
    let (k, buf) = xioctl c.kernel (query_buffer i) in
    let c1 = record c { kernel = k } in
    let (c2, there) = map_buffer c1 i buf in
    let later = map_buffers n (suc i) c2 in
    if buf.works then (if there then later else (c2, false)) else (c1, false)

unfoldable pub init_buffers : Camera → Camera × Bool
unfolding xioctl map_buffers
init_buffers c =
    let (k, req) = xioctl c.kernel request_buffers in
    let c1 = record c { kernel = k } in
    let later = map_buffers req.count 0 (record c1 { buffers = replicate req.count none }) in
    if req.works then (if ltb req.count 2 then (c1, false) else later) else (c1, false)

-- The loop that hands the buffers to the driver.
unfoldable pub queue_buffers : ℕ → ℕ → Camera → Camera × Bool
unfolding xioctl
queue_buffers zero i c = (c, true)
queue_buffers (suc n) i c =
    let (k, a) = xioctl c.kernel (queue_buffer i) in
    let c1 = record c { kernel = k } in
    let later = queue_buffers n (suc i) c1 in if a.works then later else (c1, false)

unfoldable pub switch_on : Camera → Camera × Bool
unfolding xioctl
switch_on c =
    let (k, a) = xioctl c.kernel stream_on in
    let c1 = record c { kernel = k } in
    if a.works then (record c1 { streaming = true }, true) else (c1, false)

-- `first() && second()`
abbrev pub and_then : (Camera → Camera × Bool) → (Camera → Camera × Bool) → Camera → Camera × Bool
and_then first second c =
    let (c', done) = first c in let later = second c' in if done then later else (c', false)

unfoldable pub start_streaming : Camera → Camera × Bool
unfolding queue_buffers switch_on
start_streaming c = and_then (queue_buffers (length c.buffers) 0) switch_on c

unfoldable pub check_capabilities : Camera → Camera × Bool
unfolding xioctl
check_capabilities c =
    let (k, cap) = xioctl c.kernel query_cap in
    (record c { kernel = k }, cap.works && (cap.has_capture && cap.has_streaming))

unfoldable pub open_device : Camera → Camera × Bool
unfolding next note
open_device c =
    let (k, a) = next c.kernel in
    if a.works
    then (record c { fd = true; kernel = note k opened }, true)
    else (record c { fd = false; kernel = k }, false)

unfoldable pub open_camera : Camera → Camera × Bool
unfolding open_device check_capabilities init_format init_buffers start_streaming
open_camera c =
    and_then open_device
      (and_then check_capabilities (and_then init_format (and_then init_buffers start_streaming))) c

unfoldable pub unmap_all : List (Option Region) → Kernel → Kernel
unfolding note
unmap_all [] k = k
unmap_all (none ∷ bs) k = unmap_all bs k
unmap_all (some b ∷ bs) k = unmap_all bs (note k (unmapped b))

unfoldable pub switch_off : Camera → Camera
unfolding xioctl
switch_off c =
    if c.streaming
    then record c { kernel = (xioctl c.kernel stream_off).0; streaming = false }
    else c

unfoldable pub close_device : Camera → Camera
unfolding note
close_device c = if c.fd then record c { kernel = note c.kernel closed; fd = false } else c

unfoldable pub close_camera : Camera → Camera
unfolding switch_off unmap_all close_device
close_camera c =
    let c1 = switch_off c in
    close_device (record c1 { kernel = unmap_all c1.buffers c1.kernel; buffers = [] })
