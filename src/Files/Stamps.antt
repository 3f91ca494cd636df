-- ===== src/Files/Stamps.antt =====
-- The names of snapshots that terminal/src/file/FileManager.cpp makes of the time.
use qt_s5p6818_face_tracking.Base.{
  ℕ, ◌+◌, ◌/◌, ◌%◌, ◌≤◌, ◌≡◌, ◌≢◌, refl, sym, ap, subst, ◌∙◌, Bool, true, ◌&&◌, ◌||◌, [], ◌∷◌, ◌++◌,
  Bytes, length, length-append, drop, All, All-append, get_or, append_assoc, take-all, ◌<◌, leb,
  ◌==◌, arith,
}
use qt_s5p6818_face_tracking.Base.Text.{codes}
use qt_s5p6818_face_tracking.Files.{snapshot_name, pad3}
use qt_s5p6818_face_tracking.Files.Names.{IsBasename}

-- A digit, a small letter or an underscore.
abbrev is_stamp_byte : ℕ → Bool
is_stamp_byte c = (leb 0x30 c && leb c 0x39) || (c == b'_' || (leb 0x61 c && leb c 0x7a))

-- What strftime documents for `snap_%Y%m%d_%H%M%S`, in a buffer of 48 bytes.
abbrev pub IsStamp : Bytes → Type 0
IsStamp base = (length base ≤ 47) × All (λ c. is_stamp_byte c ≡ true) base

All-map : {P Q : ℕ → Type 0} (xs : Bytes) → ((c : ℕ) → P c → Q c) → All P xs → All Q xs
All-map [] f h = tt
All-map (x ∷ xs) f h = (f x h.0, All-map xs f h.1)

stamp_safe : (c : ℕ) → is_stamp_byte c ≡ true → (c ≢ 0x2f) × (c ≢ 0x5c) × (0x20 ≤ c) × (c ≢ b'.')
stamp_safe c h = (
  λ e. absurd (ground arith),
  λ e. absurd (ground arith),
  ground arith,
  λ e. absurd (ground arith),
)

dot_in : (pre post : Bytes) → ¬ All (λ c. c ≢ b'.') (pre ++ b'.' ∷ post)
dot_in [] post h = h.0 refl
dot_in (x ∷ pre) post h = dot_in pre post h.1

-- Bytes with one dot have no two dots side by side.
one_dot :
    (xs ys pre post : Bytes)
    → All (λ c. c ≢ b'.') xs
    → All (λ c. c ≢ b'.') ys
    → xs ++ b'.' ∷ ys ≢ pre ++ b'.' ∷ b'.' ∷ post
one_dot [] ys [] post p q e = dot_in [] post (subst (All (λ c. c ≢ b'.')) (ap (drop 1) e) q)
one_dot [] ys (x ∷ pre) post p q e =
    dot_in pre (b'.' ∷ post) (subst (All (λ c. c ≢ b'.')) (ap (drop 1) e) q)
one_dot (x ∷ xs) ys [] post p q e = p.0 (ap (λ l. get_or l 0 0) e)
one_dot (x ∷ xs) ys (y ∷ pre) post p q e = one_dot xs ys pre post p.1 q (ap (drop 1) e)

-- The name up to its dot.
abbrev stem : Bytes → ℕ → Bytes
stem base n = base ++ b'_' ∷ (b'0' + n / 100) ∷ (b'0' + n / 10 % 10) ∷ (b'0' + n % 10) ∷ []

stem-All :
    (base : Bytes) (n : ℕ)
    → n < 1000
    → IsStamp base
    → All (λ c. is_stamp_byte c ≡ true) (stem base n)
stem-All base n h b =
    All-append _ base _ b.1 (refl, (ground arith, (ground arith, (ground arith, tt))))

snapshot_name-stem :
    (base : Bytes) (now_ms : ℕ)
    → IsStamp base
    → snapshot_name base now_ms ≡ stem base (now_ms % 1000) ++ codes ".jpg"
unfolding snapshot_name
snapshot_name-stem base now_ms b =
    take-all 63 _
      (omega (arith, length-append base (b'_' ∷ (pad3 (now_ms % 1000) ++ codes ".jpg")), b.0))
    ∙ sym (append_assoc base _ (codes ".jpg"))

-- A snapshot's name is a plain file name.
pub snapshot_name-IsBasename :
    (base : Bytes) (now_ms : ℕ) → IsStamp base → IsBasename (snapshot_name base now_ms)
snapshot_name-IsBasename base now_ms b =
    let n = now_ms % 1000 in
    let safe = All-map (stem base n) stamp_safe (stem-All base n (omega arith) b) in
    let size : length (stem base n) ≤ 51 = omega (
      arith,
      length-append base (b'_' ∷ (b'0' + n / 100) ∷ (b'0' + n / 10 % 10) ∷ (b'0' + n % 10) ∷ []),
      b.0,
    ) in
    subst IsBasename (sym (snapshot_name-stem base now_ms b)) (record {
      nonempty =
          λ e. absurd (omega (arith, ap length e, length-append (stem base n) (codes ".jpg")));
      bounded = omega (arith, size, length-append (stem base n) (codes ".jpg"));
      no_slash = All-append _ (stem base n) _ (All-map _ (λ c h. h.0) safe) (
        λ e. absurd (omega (arith, e)),
        (
          λ e. absurd (omega (arith, e)),
          (λ e. absurd (omega (arith, e)), (λ e. absurd (omega (arith, e)), tt)),
        ),
      );
      no_backslash = All-append _ (stem base n) _ (All-map _ (λ c h. h.1) safe) (
        λ e. absurd (omega (arith, e)),
        (
          λ e. absurd (omega (arith, e)),
          (λ e. absurd (omega (arith, e)), (λ e. absurd (omega (arith, e)), tt)),
        ),
      );
      no_control =
          All-append _ (stem base n) _ (All-map _ (λ c h. h.2) safe)
            (omega arith, (omega arith, (omega arith, (omega arith, tt))));
      not_dot =
          λ e. absurd (omega (arith, ap length e, length-append (stem base n) (codes ".jpg")));
      no_parent = λ pre post.
          one_dot (stem base n) (codes "jpg") pre post (All-map _ (λ c h. h.3) safe) (
            λ e. absurd (omega (arith, e)),
            (λ e. absurd (omega (arith, e)), (λ e. absurd (omega (arith, e)), tt)),
          );
    })
