-- ===== src/Camera/Resources.antt =====
-- terminal/src/capture/V4L2Camera.cpp: what the camera holds of the kernel, whatever fails.
use qt_s5p6818_face_tracking.Base.{
  ℕ, zero, suc, ◌≡◌, refl, ◌∙◌, Bool, true, false, not, ◌&&◌, List, [], ◌∷◌, ◌++◌, Option, none,
  some, ◌==◌, if◌then◌else◌, ==_refl,
}
use qt_s5p6818_face_tracking.Base.Replay.{replay, replay-snoc}
use qt_s5p6818_face_tracking.Camera.{
  Region, Kernel, Request, Event, opened, closed, ioctl, mapped, unmapped, stream_on, stream_off,
  query_cap, request_buffers, dequeue, set_format, set_parm, query_buffer, queue_buffer, note, next,
  retry, xioctl, unmap_all,
}

-- What a process holds of the device: a descriptor, a running stream, and mappings.
pub record Held : Type 0 where
  pub fd : Bool
  pub streams : Bool
  pub maps : List Region

-- What a request that works changes.
abbrev request : Held → Request → Option Held
request h stream_on = if h.fd && not h.streams then some (record h { streams = true }) else none
request h stream_off = if h.streams then some (record h { streams = false }) else none
request h r = if h.fd then some h else none

-- The oldest mapping is released.
abbrev release : Held → Region → List Region → Option Held
release h b [] = none
release h b (m ∷ ms) = if m.0 == b.0 && m.1 == b.1 then some (record h { maps = ms }) else none

-- What an event changes; `none` is a misuse: a second descriptor or none to close, a request without
-- one, a stream started twice, a mapping released that there is not.
abbrev pub effect : Held → Event → Option Held
effect h opened = if h.fd then none else some (record h { fd = true })
effect h closed = if h.fd then some (record h { fd = false; streams = false }) else none
effect h (ioctl r false) = if h.fd then some h else none
effect h (ioctl r true) = request h r
effect h (mapped b) = if h.fd then some (record h { maps = h.maps ++ b ∷ [] }) else none
effect h (unmapped b) = release h b h.maps

abbrev pub nothing_held : Held
nothing_held = record { fd = false; streams = false; maps = [] }

-- After this log, this is held.
abbrev pub Holds : Kernel → Held → Type 0
Holds k h = replay effect nothing_held k.log ≡ some h

-- One event more.
pub note_lem :
    (k : Kernel) (e : Event) (h h' : Held) → Holds k h → effect h e ≡ some h' → Holds (note k e) h'
unfolding note
note_lem k e h h' held step = replay-snoc effect nothing_held k.log e ∙ rw held step

retry_lem :
    (n : ℕ) (k : Kernel) (r : Request) (works : Bool) (h h' : Held)
    → Holds k h
    → h.fd ≡ true
    → effect h (ioctl r works) ≡ some h'
    → Holds (retry n k r works) h'
unfolding retry
retry_lem zero k r works h h' held on step = note_lem k (ioctl r works) h h' held step
retry_lem (suc n) k r works h h' held on step =
    retry_lem n (note k (ioctl r false)) r works h h'
      (note_lem k (ioctl r false) h h held (rw on refl)) on step

pub xioctl_lem :
    (k : Kernel) (r : Request) (h h' : Held)
    → Holds k h
    → h.fd ≡ true
    → effect h (ioctl r (k.gives k.asked).works) ≡ some h'
    → Holds (xioctl k r).0 h'
unfolding xioctl next
xioctl_lem k r h h' held on step =
    retry_lem (k.gives k.asked).interruptions (record k { asked = suc k.asked }) r
      (k.gives k.asked).works h h' held on step

-- A request that changes nothing of what is held, whether it works or not.
abbrev pub IsNeutral : Request → Type 0
IsNeutral r = (h : Held) (works : Bool) → h.fd ≡ true → effect h (ioctl r works) ≡ some h

pub neutral_lem :
    (k : Kernel) (r : Request) (h : Held)
    → IsNeutral r
    → Holds k h
    → h.fd ≡ true
    → Holds (xioctl k r).0 h
neutral_lem k r h quiet held on = xioctl_lem k r h h held on (quiet h (k.gives k.asked).works on)

pub query_cap-IsNeutral : IsNeutral query_cap
query_cap-IsNeutral h true on = rw on refl
query_cap-IsNeutral h false on = rw on refl

pub request_buffers-IsNeutral : IsNeutral request_buffers
request_buffers-IsNeutral h true on = rw on refl
request_buffers-IsNeutral h false on = rw on refl

pub dequeue-IsNeutral : IsNeutral dequeue
dequeue-IsNeutral h true on = rw on refl
dequeue-IsNeutral h false on = rw on refl

pub set_format-IsNeutral : (w h f : ℕ) → IsNeutral (set_format w h f)
set_format-IsNeutral w h f x true on = rw on refl
set_format-IsNeutral w h f x false on = rw on refl

pub set_parm-IsNeutral : (f : ℕ) → IsNeutral (set_parm f)
set_parm-IsNeutral f x true on = rw on refl
set_parm-IsNeutral f x false on = rw on refl

pub query_buffer-IsNeutral : (i : ℕ) → IsNeutral (query_buffer i)
query_buffer-IsNeutral i x true on = rw on refl
query_buffer-IsNeutral i x false on = rw on refl

pub queue_buffer-IsNeutral : (i : ℕ) → IsNeutral (queue_buffer i)
queue_buffer-IsNeutral i x true on = rw on refl
queue_buffer-IsNeutral i x false on = rw on refl

-- The mappings in a vector of buffers.
abbrev pub regions : List (Option Region) → List Region
regions [] = []
regions (none ∷ bs) = regions bs
regions (some b ∷ bs) = b ∷ regions bs

pub unmap_all_lem :
    (bs : List (Option Region)) (k : Kernel) (h : Held)
    → Holds k (record h { maps = regions bs })
    → Holds (unmap_all bs k) (record h { maps = [] })
unfolding unmap_all
unmap_all_lem [] k h held = held
unmap_all_lem (none ∷ bs) k h held = unmap_all_lem bs k h held
unmap_all_lem (some b ∷ bs) k h held = unmap_all_lem bs (note k (unmapped b)) h (
    note_lem k (unmapped b) (record h { maps = b ∷ regions bs }) (record h { maps = regions bs })
      held (rw (==_refl b.0, ==_refl b.1) refl))
