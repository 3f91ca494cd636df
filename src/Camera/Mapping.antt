-- ===== src/Camera/Mapping.antt =====
-- terminal/src/capture/V4L2Camera.cpp: the steps of `open` up to the mapping of the buffers.
use qt_s5p6818_face_tracking.Base.{
  ℕ, zero, suc, ◌≡◌, refl, sym, ap, ◌∙◌, subst, Bool, true, false, ◌&&◌, List, [], ◌∷◌, ◌++◌,
  Option, none, some, length, replicate, ltb, ◌==◌, if◌then◌else◌, if_lem, arith, Bool-cases, inl,
  inr, map, length-append, append-nil,
}
use qt_s5p6818_face_tracking.Camera.{
  Camera, Region, Answer, Request, mapped, query_cap, request_buffers, set_format, set_parm,
  query_buffer, note, next, xioctl, try_formats, init_format, set_at, map_buffer, map_buffers,
  init_buffers, check_capabilities, mjpeg, yuyv,
}
use qt_s5p6818_face_tracking.Camera.Resources.{
  Holds, IsNeutral, note_lem, neutral_lem, regions, query_cap-IsNeutral, request_buffers-IsNeutral,
  set_format-IsNeutral, set_parm-IsNeutral, query_buffer-IsNeutral,
}

-- The camera knows what it holds, and it has a descriptor where it streams.
pub record IsTracked (c : Camera) : Type 0 where
  pub tracked :
      Holds c.kernel (record { fd = c.fd; streams = c.streaming; maps = regions c.buffers })
  pub is_open : c.streaming ≡ true → c.fd ≡ true

-- The device is open, and does not stream yet.
pub record IsOpening (c : Camera) : Type 0 where
  pub opened : c.fd ≡ true
  pub idle : c.streaming ≡ false
  pub opening : Holds c.kernel (record { fd = true; streams = false; maps = regions c.buffers })

-- Nothing of it is mapped yet.
abbrev pub IsFresh : Camera → Type 0
IsFresh c = IsOpening c × (c.buffers ≡ [])

pub opening-IsTracked : (c : Camera) → IsOpening c → IsTracked c
opening-IsTracked c h = record {
  tracked =
      subst
        (λ b. Holds c.kernel (record { fd = b; streams = c.streaming; maps = regions c.buffers }))
        (sym h.opened)
        (subst (λ b. Holds c.kernel (record { fd = true; streams = b; maps = regions c.buffers }))
          (sym h.idle) h.opening);
  is_open = λ e. h.opened;
}

-- A request that changes nothing.
pub ask :
    (c : Camera) (r : Request)
    → IsNeutral r
    → IsOpening c
    → IsOpening (record c { kernel = (xioctl c.kernel r).0 })
ask c r quiet h = record {
  opened = h.opened;
  idle = h.idle;
  opening =
      neutral_lem c.kernel r (record { fd = true; streams = false; maps = regions c.buffers }) quiet
        h.opening refl;
}

pub check_capabilities-IsFresh : (c : Camera) → IsFresh c → IsFresh (check_capabilities c).0
unfolding check_capabilities
check_capabilities-IsFresh c h = (ask c query_cap query_cap-IsNeutral h.0, h.1)

try_formats-IsFresh : (fmts : List ℕ) (c : Camera) → IsFresh c → IsFresh (try_formats fmts c).0
unfolding try_formats
try_formats-IsFresh [] c h = h
try_formats-IsFresh (fmt ∷ fmts) c h =
    let set = set_format c.width c.height fmt in
    let tried = ask c set (set_format-IsNeutral c.width c.height fmt) h.0 in
    let a = (xioctl c.kernel set).1 in
    elim (Bool-cases (a.works && a.pixel_format == fmt)) [
      | inl e ↦
          let set_up =
            ask (record c { kernel = (xioctl c.kernel set).0 }) (set_parm c.fps)
              (set_parm-IsNeutral c.fps) tried in
          rw e
            (record { opened = set_up.opened; idle = set_up.idle; opening = set_up.opening }, h.1)
      | inr e ↦
          rw e
            (try_formats-IsFresh fmts (record c { kernel = (xioctl c.kernel set).0 }) (tried, h.1))
    ]

pub init_format-IsFresh : (c : Camera) → IsFresh c → IsFresh (init_format c).0
unfolding init_format
init_format-IsFresh c h = try_formats-IsFresh (mjpeg ∷ yuyv ∷ []) c h

-- The vector while the first buffers `bs` are mapped and `n` are not.
abbrev filled : List Region → ℕ → List (Option Region)
filled bs n = map some bs ++ replicate n none

set_at-filled :
    (bs : List Region) (n : ℕ) (b : Region)
    → set_at (filled bs (suc n)) (length bs) b ≡ filled (bs ++ b ∷ []) n
set_at-filled [] n b = refl
set_at-filled (x ∷ bs) n b = ap (◌∷◌ (some x)) (set_at-filled bs n b)

regions-filled : (bs : List Region) (n : ℕ) → regions (filled bs n) ≡ bs
regions-filled [] zero = refl
regions-filled [] (suc n) = regions-filled [] n
regions-filled (x ∷ bs) n = ap (◌∷◌ x) (regions-filled bs n)

-- The buffers before `bs` are mapped.
record IsMapping (c : Camera) (bs : List Region) (n : ℕ) : Type 0 where
  buffers : c.buffers ≡ filled bs n
  opened : c.fd ≡ true
  idle : c.streaming ≡ false
  mapping : Holds c.kernel (record { fd = true; streams = false; maps = bs })

mapping-IsOpening : (c : Camera) (bs : List Region) (n : ℕ) → IsMapping c bs n → IsOpening c
mapping-IsOpening c bs n h = record {
  opened = h.opened;
  idle = h.idle;
  opening =
      subst (λ m. Holds c.kernel (record { fd = true; streams = false; maps = m }))
        (sym (ap regions h.buffers ∙ regions-filled bs n)) h.mapping;
}

-- What the mapping of one buffer leaves.
abbrev Next : List Region → ℕ → Camera × Bool → Type 0
Next bs n r =
    (r.1 ≡ true → (b : Region) × IsMapping r.0 (bs ++ b ∷ []) n)
    × (r.1 ≡ false → IsMapping r.0 bs (suc n))

map_buffer_lem :
    (n : ℕ) (c : Camera) (bs : List Region) (buf : Answer)
    → IsMapping c bs (suc n)
    → Next bs n (map_buffer c (length bs) buf)
unfolding map_buffer next
map_buffer_lem n c bs buf h =
    let k = (next c.kernel).0 in
    let p = (next c.kernel).1 in
    let there : Region = (p.start, buf.size) in
    if_lem (Next bs n) p.works
      (
        record c { buffers = set_at c.buffers (length bs) there; kernel = note k (mapped there) },
        true,
      )
      (record c { kernel = k }, false)
      (λ e. (
        λ done. (
          there,
          record {
            buffers = ap (λ v. set_at v (length bs) there) h.buffers ∙ set_at-filled bs n there;
            opened = h.opened;
            idle = h.idle;
            mapping =
                note_lem k (mapped there) (record { fd = true; streams = false; maps = bs })
                  (record { fd = true; streams = false; maps = bs ++ there ∷ [] }) h.mapping refl;
          },
        ),
        λ lost. absurd (cc lost),
      ))
      (λ e. (
        λ done. absurd (cc done),
        λ lost. record {
          buffers = h.buffers;
          opened = h.opened;
          idle = h.idle;
          mapping = h.mapping;
        },
      ))

-- What the loop over the buffers leaves: on success all of them are mapped.
abbrev pub Mapped : Camera × Bool → Type 0
Mapped r = IsOpening r.0 × (r.1 ≡ true → (bs : List Region) × (r.0.buffers ≡ map some bs))

pub not_done : (c : Camera) → IsOpening c → Mapped (c, false)
not_done c h = (h, λ done. absurd (cc done))

map_buffers_lem :
    (n i : ℕ) (c : Camera) (bs : List Region)
    → IsMapping c bs n
    → length bs ≡ i
    → Mapped (map_buffers n i c)
unfolding map_buffers
map_buffers_lem zero i c bs h e =
    (mapping-IsOpening c bs 0 h, λ done. (bs, h.buffers ∙ append-nil (map some bs)))
map_buffers_lem (suc n) i c bs h e =
    let (k, buf) = xioctl c.kernel (query_buffer i) in
    let c1 = record c { kernel = k } in
    let queried : IsMapping c1 bs (suc n) = record {
      buffers = h.buffers;
      opened = h.opened;
      idle = h.idle;
      mapping =
          neutral_lem c.kernel (query_buffer i) (record { fd = true; streams = false; maps = bs })
            (query_buffer-IsNeutral i) h.mapping refl;
    } in
    let step = map_buffer c1 i buf in
    let next : Next bs n step =
      subst (λ j. Next bs n (map_buffer c1 j buf)) e (map_buffer_lem n c1 bs buf queried) in
    if_lem Mapped buf.works (if step.1 then map_buffers n (suc i) step.0 else (step.0, false))
      (c1, false)
      (λ a.
        if_lem Mapped step.1 (map_buffers n (suc i) step.0) (step.0, false)
          (λ done.
            let (b, more) = next.0 done in
            map_buffers_lem n (suc i) step.0 (bs ++ b ∷ []) more
              (omega (arith, length-append bs (b ∷ []))))
          (λ lost. not_done step.0 (mapping-IsOpening step.0 bs (suc n) (next.1 lost))))
      (λ a. not_done c1 (mapping-IsOpening c1 bs (suc n) queried))

pub init_buffers-Mapped : (c : Camera) → IsFresh c → Mapped (init_buffers c)
unfolding init_buffers
init_buffers-Mapped c h =
    let (k, req) = xioctl c.kernel request_buffers in
    let c1 = record c { kernel = k } in
    let asked = ask c request_buffers request_buffers-IsNeutral h.0 in
    let c2 = record c1 { buffers = replicate req.count none } in
    let start : IsMapping c2 [] req.count = record {
      buffers = refl;
      opened = h.0.opened;
      idle = h.0.idle;
      mapping =
          subst (λ v. Holds k (record { fd = true; streams = false; maps = regions v })) h.1
            asked.opening;
    } in
    if_lem Mapped req.works (if ltb req.count 2 then (c1, false) else map_buffers req.count 0 c2)
      (c1, false)
      (λ a.
        if_lem Mapped (ltb req.count 2) (c1, false) (map_buffers req.count 0 c2)
          (λ few. not_done c1 asked) (λ enough. map_buffers_lem req.count 0 c2 [] start refl))
      (λ a. not_done c1 asked)
