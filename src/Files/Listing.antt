-- ===== src/Files/Listing.antt =====
-- What `FileManager::list` and `FileManager::snapshot` of terminal/src/file/FileManager.cpp give.
use mathlib.Core.List.{
  Perm, Mem, mem-append_left, mem-append_right, mem-cons_self, mem-cons, not-mem-nil,
}
use mathlib.Core.List.Perm
use mathlib.Core.Logic.{∥∥₁_prop}
use mathlib.Core.Logic.Or
use qt_s5p6818_face_tracking.Base.{
  ℕ, ◌≤◌, ◌≡◌, inl, inr, refl, true, false, List, [], ◌∷◌, Bytes, Option, none, some, All,
  All-append, ltb, ltb→lt, ltb→ge, if◌then◌else◌, arith, Bool-cases,
}
use qt_s5p6818_face_tracking.Files.{
  FileSystem, FileStat, FileInfo, FileManager, join, is_hidden, insert_newest, sort_newest,
  entry_info, collect, list, list_entries,
}

-- The times of the entries fall along the list.
abbrev pub IsNewestFirst : List FileInfo → Type 0
IsNewestFirst [] = Unit {0}
IsNewestFirst (f ∷ fs) = All (λ g. g.mtime ≤ f.mtime) fs × IsNewestFirst fs

insert_newest-perm : (f : FileInfo) (fs : List FileInfo) → Perm (insert_newest f fs) (f ∷ fs)
unfolding insert_newest
insert_newest-perm f [] = Perm.refl _
insert_newest-perm f (g ∷ gs) = elim (Bool-cases (ltb f.mtime g.mtime)) [
  | inl older ↦ rw older (Perm.trans (Perm.cons g (insert_newest-perm f gs)) (Perm.swap f g gs))
  | inr newer ↦ rw newer (Perm.refl _)
]

sort_newest-perm : (fs : List FileInfo) → Perm (sort_newest fs) fs
unfolding sort_newest
sort_newest-perm [] = Perm.refl _
sort_newest-perm (f ∷ fs) =
    Perm.trans (insert_newest-perm f (sort_newest fs)) (Perm.cons f (sort_newest-perm fs))

All-le_trans :
    (a b : ℕ) (fs : List FileInfo) → a ≤ b → All (λ g. g.mtime ≤ a) fs → All (λ g. g.mtime ≤ b) fs
All-le_trans a b [] h p = tt
All-le_trans a b (f ∷ fs) h p = (omega arith, All-le_trans a b fs h p.1)

All-insert_newest :
    (P : FileInfo → Type 0) (f : FileInfo) (fs : List FileInfo)
    → P f
    → All P fs
    → All P (insert_newest f fs)
unfolding insert_newest
All-insert_newest P f [] p ps = (p, tt)
All-insert_newest P f (g ∷ gs) p ps = elim (Bool-cases (ltb f.mtime g.mtime)) [
  | inl older ↦ rw older (ps.0, All-insert_newest P f gs p ps.1)
  | inr newer ↦ rw newer (p, ps)
]

insert_newest-IsNewestFirst :
    (f : FileInfo) (fs : List FileInfo) → IsNewestFirst fs → IsNewestFirst (insert_newest f fs)
unfolding insert_newest
insert_newest-IsNewestFirst f [] s = (tt, tt)
insert_newest-IsNewestFirst f (g ∷ gs) s = elim (Bool-cases (ltb f.mtime g.mtime)) [
  | inl older ↦ rw older (
    All-insert_newest (λ h. h.mtime ≤ g.mtime) f gs (omega (arith, ltb→lt _ _ older)) s.0,
    insert_newest-IsNewestFirst f gs s.1,
  )
  | inr newer ↦
      rw newer ((ltb→ge _ _ newer, All-le_trans g.mtime f.mtime gs (ltb→ge _ _ newer) s.0), s)
]

sort_newest-IsNewestFirst : (fs : List FileInfo) → IsNewestFirst (sort_newest fs)
unfolding sort_newest
sort_newest-IsNewestFirst [] = tt
sort_newest-IsNewestFirst (f ∷ fs) =
    insert_newest-IsNewestFirst f (sort_newest fs) (sort_newest-IsNewestFirst fs)

All-sort_newest : (P : FileInfo → Type 0) (fs : List FileInfo) → All P fs → All P (sort_newest fs)
unfolding sort_newest
All-sort_newest P [] p = tt
All-sort_newest P (f ∷ fs) p = All-insert_newest P f (sort_newest fs) p.0 (All-sort_newest P fs p.1)

module _ {D Image : Type 0} (fs : FileSystem D Image) (m : FileManager) (d : D) where
  -- The entry `f` is that of a regular file of the capture directory, not hidden, as it is on disk.
  pub record IsShown (f : FileInfo) : Type 0 where
    pub stat : FileStat
    pub on_disk : fs.stat d (join m.dir f.name) ≡ some stat
    pub regular : stat.is_regular ≡ true
    pub not_hidden : is_hidden f.name ≡ false
    pub size_of : f.size ≡ stat.size
    pub mtime_of : f.mtime ≡ stat.mtime

  entry_info-IsShown :
      (e : Bytes) (o : Option FileStat)
      → is_hidden e ≡ false
      → fs.stat d (join m.dir e) ≡ o
      → All IsShown (entry_info fs m.dir e o)
  unfolding entry_info
  entry_info-IsShown e none h q = tt
  entry_info-IsShown e (some st) h q = elim (Bool-cases st.is_regular) [
    | inl r ↦ rw r (
      record {
        stat = st;
        on_disk = q;
        regular = r;
        not_hidden = h;
        size_of = refl;
        mtime_of = refl;
      },
      tt,
    )
    | inr r ↦ rw r tt
  ]

  collect-IsShown : (es : List Bytes) → All IsShown (collect fs m d es)
  unfolding collect
  collect-IsShown [] = tt
  collect-IsShown (e ∷ es) = elim (Bool-cases (is_hidden e)) [
    | inl h ↦ rw h (collect-IsShown es)
    | inr h ↦ rw h (
        All-append IsShown (entry_info fs m.dir e (fs.stat d (join m.dir e))) _
          (entry_info-IsShown e _ h refl) (collect-IsShown es))
  ]

  collect-complete :
      (es : List Bytes) (e : Bytes) (st : FileStat)
      → Mem e es
      → is_hidden e ≡ false
      → fs.stat d (join m.dir e) ≡ some st
      → st.is_regular ≡ true
      → Mem (record { name = e; size = st.size; mtime = st.mtime }) (collect fs m d es)
  unfolding collect entry_info
  collect-complete [] e st i h q r = absurd (not-mem-nil i)
  collect-complete (x ∷ es) e st i h q r =
      Or.elim ∥∥₁_prop (mem-cons.0 i)
        (λ same.
          mem-append_left
            {s = if is_hidden x then [] else entry_info fs m.dir x (fs.stat d (join m.dir x))} _
            (rw (← same, h, q, r) mem-cons_self))
        (λ later. mem-append_right _ (collect-complete es e st later h q r))

  -- When the directory can be read, the list is sorted newest first, and it holds the regular
  -- files of the capture directory that are not hidden, with size and time as on disk, all of
  -- them and nothing else.
  pub list_shows :
      (es : List Bytes)
      → fs.readdir d m.dir ≡ some es
      → IsNewestFirst (list fs m d)
        × All IsShown (list fs m d)
        × ((e : Bytes) (st : FileStat)
            → Mem e es
            → is_hidden e ≡ false
            → fs.stat d (join m.dir e) ≡ some st
            → st.is_regular ≡ true
            → Mem (record { name = e; size = st.size; mtime = st.mtime }) (list fs m d))
  unfolding list list_entries
  list_shows es q = rw q (
    sort_newest-IsNewestFirst (collect fs m d es),
    All-sort_newest IsShown (collect fs m d es) (collect-IsShown es),
    λ e st i h s r.
        (Perm.mem_iff (sort_newest-perm (collect fs m d es))).1 (collect-complete es e st i h s r),
  )
