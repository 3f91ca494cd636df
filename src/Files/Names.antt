-- ===== src/Files/Names.antt =====
-- The path guard of terminal/src/file/FileManager.cpp (`resolve`), and what it does for the methods
-- that take a name from a client.
use qt_s5p6818_face_tracking.Base.{
  ◌≤◌, ◌≡◌, ◌≢◌, ◌↔◌, ◌⊎◌, inl, inr, refl, sym, ◌∙◌, ap, false, [], ◌∷◌, ◌++◌, Bytes, some, length,
  All, equal, equal_iff, arith, Bool-cases, Option-cases,
}
use qt_s5p6818_face_tracking.Base.Text.{
  contains, contains_sound, contains_complete, contains-All, All-contains,
}
use qt_s5p6818_face_tracking.Files.{
  FileSystem, OpenFile, FileManager, slash, join, has_control, resolve, read, remove, read_path,
  read_open, read_bytes, remove_path,
}

-- A plain file name: no separator of either kind, no control character, no "..", not ".".
pub record IsBasename (name : Bytes) : Type 0 where
  pub nonempty : name ≢ []
  pub bounded : length name ≤ 128
  pub no_slash : All (λ c. c ≢ slash) name
  pub no_backslash : All (λ c. c ≢ 0x5c) name
  pub no_control : All (λ c. 0x20 ≤ c) name
  pub not_dot : name ≢ b'.' ∷ []
  pub no_parent : (pre post : Bytes) → name ≢ pre ++ b'.' ∷ b'.' ∷ post

has_control-All : (cs : Bytes) → has_control cs ≡ false → All (λ c. 0x20 ≤ c) cs
unfolding has_control
has_control-All [] h = tt
has_control-All (c ∷ cs) h = (ground arith, has_control-All cs (ground arith))

All-has_control : (cs : Bytes) → All (λ c. 0x20 ≤ c) cs → has_control cs ≡ false
unfolding has_control
All-has_control [] h = refl
All-has_control (c ∷ cs) h = ground (arith, All-has_control cs h.1)

-- The six tests of `resolve`, all passed.
record Passes (name : Bytes) : Type 0 where
  nonempty : equal name [] ≡ false
  bounded : length name ≤ 128
  slashes : contains (slash ∷ []) name ≡ false
  backslashes : contains (0x5c ∷ []) name ≡ false
  dot : equal name (b'.' ∷ []) ≡ false
  dots : equal name (b'.' ∷ b'.' ∷ []) ≡ false
  parent : contains (b'.' ∷ b'.' ∷ []) name ≡ false
  control : has_control name ≡ false

resolve-Passes :
    (m : FileManager) (name : Bytes) {p : Bytes}
    → resolve m name ≡ some p
    → Passes name × (p ≡ join m.dir name)
unfolding resolve
resolve-Passes m name e = ground arith

Passes-resolve :
    (m : FileManager) (name : Bytes) → Passes name → resolve m name ≡ some (join m.dir name)
unfolding resolve
Passes-resolve m name t = ground arith

not_equal : (a b : Bytes) → a ≢ b → equal a b ≡ false
not_equal a b h = elim (Bool-cases (equal a b)) [
  | inl e ↦ absurd (h ((equal_iff a b).0 e))
  | inr e ↦ e
]

ne_of_not_equal : (a b : Bytes) → equal a b ≡ false → a ≢ b
ne_of_not_equal a b h e = cc ((equal_iff a b).1 e)

no_needle :
    (needle bs : Bytes)
    → contains needle bs ≡ false
    → (pre post : Bytes) → bs ≢ pre ++ (needle ++ post)
no_needle needle bs h pre post e = cc (rw e at h, contains_complete needle pre post)

Passes-IsBasename : (name : Bytes) → Passes name → IsBasename name
Passes-IsBasename name t = record {
  nonempty = ne_of_not_equal name [] t.nonempty;
  bounded = t.bounded;
  no_slash = contains-All slash name t.slashes;
  no_backslash = contains-All 0x5c name t.backslashes;
  no_control = has_control-All name t.control;
  not_dot = ne_of_not_equal name (b'.' ∷ []) t.dot;
  no_parent = no_needle (b'.' ∷ b'.' ∷ []) name t.parent;
}

IsBasename-Passes : (name : Bytes) → IsBasename name → Passes name
IsBasename-Passes name b = record {
  nonempty = not_equal name [] b.nonempty;
  bounded = b.bounded;
  slashes = All-contains slash name b.no_slash;
  backslashes = All-contains 0x5c name b.no_backslash;
  dot = not_equal name (b'.' ∷ []) b.not_dot;
  dots = not_equal name (b'.' ∷ b'.' ∷ []) (b.no_parent [] []);
  parent = elim (Bool-cases (contains (b'.' ∷ b'.' ∷ []) name)) [
    | inl e ↦
        let (pre, post, f) = contains_sound (b'.' ∷ b'.' ∷ []) name e in
        absurd (b.no_parent pre post f)
    | inr e ↦ e
  ];
  control = All-has_control name b.no_control;
}

-- `resolve` gives a path exactly for a basename (1 to 128 bytes, no slash, backslash or control
-- character, no `..`, not `.`), and the path is that name in the capture directory.
pub resolve_iff :
    (m : FileManager) (name p : Bytes)
    → (resolve m name ≡ some p) ↔ (IsBasename name × (p ≡ join m.dir name))
resolve_iff m name p = (
  λ e. let (t, q) = resolve-Passes m name e in (Passes-IsBasename name t, q),
  λ (b, q). Passes-resolve m name (IsBasename-Passes name b) ∙ ap some (sym q),
)

-- `remove` leaves the disk alone and fails, or the name is a basename and the one call made
-- unlinks that name in the capture directory.
pub remove-confined :
    {D Image : Type 0} (fs : FileSystem D Image) (m : FileManager) (name : Bytes) (d : D)
    → (remove fs m name d ≡ (d, false))
      ⊎ (IsBasename name × (remove fs m name d ≡ fs.unlink d (join m.dir name)))
unfolding remove remove_path
remove-confined fs m name d = elim (Option-cases (resolve m name)) [
  | inl e ↦ inl (rw e)
  | inr (p, e) ↦ let (b, q) = (resolve_iff m name p).0 e in inr (b, rw (e, q))
]

-- A `read` that succeeds is of a basename, from that name in the capture directory, and gives as
-- many bytes as the file has.
pub read-confined :
    {D Image : Type 0} (fs : FileSystem D Image) (m : FileManager) (name : Bytes) (d : D)
    {out : Bytes}
    → read fs m name d ≡ some out
    → IsBasename name
      × ((f : OpenFile) × (fs.fopen d (join m.dir name) ≡ some f) × (f.end ≡ some (length out)))
unfolding read read_path read_open read_bytes
read-confined fs m name d h = elim (Option-cases (resolve m name)) [
  | inl e ↦ absurd (cc (rw e at h))
  | inr (p, e) ↦
      let (b, q) = (resolve_iff m name p).0 e in
      elim (Option-cases (fs.fopen d (join m.dir name))) [
        | inl c ↦ absurd (cc (rw (e, q, c) at h))
        | inr (f, o) ↦ (b, (f, o, ground arith))
      ]
]
