-- ===== src/Files.antt =====
-- terminal/src/file/FileManager.cpp: the capture directory that clients list, read and delete.
-- The file system and OpenCV's encoder are not part of the program: `FileSystem` names the calls made
-- of them, on a state `D` of the disk. The mutex makes each method one step.
pub mod Names
pub mod Stamps
pub mod Listing
use qt_s5p6818_face_tracking.Base.{
  ℕ, ◌+◌, ◌/◌, ◌%◌, ◌≡◌, Bool, true, false, not, ◌&&◌, ◌||◌, List, [], ◌∷◌, ◌++◌, Bytes, Option,
  none, some, length, take, ltb, leb, ◌==◌, if◌then◌else◌, equal,
}
use qt_s5p6818_face_tracking.Base.Text.{find, contains}

pub record FileStat : Type 0 where
  pub is_regular : Bool
  pub size : ℕ
  pub mtime : ℕ

-- An open file: its end (`none` where `ftell` fails), and what `fread` gets of so many bytes.
pub record OpenFile : Type 0 where
  pub end : Option ℕ
  pub fread : ℕ → Bytes

-- `mkdir` makes the directory, finds one there (`EEXIST`), or fails otherwise.
pub data MkdirResult : Type 0 where
  created exists failed : MkdirResult

-- The calls on the disk, for images of type `Image`.
pub record FileSystem (D Image : Type 0) : Type 0 where
  pub mkdir : D → Bytes → D × MkdirResult
  pub readdir : D → Bytes → Option (List Bytes)
  pub stat : D → Bytes → Option FileStat
  pub fopen : D → Bytes → Option OpenFile
  pub unlink : D → Bytes → D × Bool
  pub is_empty : Image → Bool
  pub imwrite : D → Bytes → Image → ℕ → D × Bool

pub record FileInfo : Type 0 where
  pub name : Bytes
  pub size : ℕ
  pub mtime : ℕ

pub record FileManager : Type 0 where
  pub dir : Bytes
  pub jpeg_quality : ℕ

abbrev pub slash : ℕ
slash = b'/'

-- `dir + "/" + name`
abbrev pub join : Bytes → Bytes → Bytes
join dir name = dir ++ slash ∷ name

-- The loop over the characters of a name.
has_control : Bytes → Bool
has_control [] = false
has_control (c ∷ cs) = c == 0 || ltb c 0x20 || has_control cs

abbrev dot : ℕ
dot = b'.'

unfoldable pub resolve : FileManager → Bytes → Option Bytes
unfolding has_control equal
resolve m name =
    if equal name [] || ltb 128 (length name)
    then none
    else if contains (slash ∷ []) name
    then none
    else if contains (0x5c ∷ []) name
    then none
    else if equal name (dot ∷ []) || equal name (dot ∷ dot ∷ [])
    then none
    else if contains (dot ∷ dot ∷ []) name
    then none
    else if has_control name
    then none
    else some (join m.dir name)

-- `%03u` of a number below 1000.
abbrev pad3 : ℕ → Bytes
pad3 n = (b'0' + n / 100) ∷ (b'0' + n / 10 % 10) ∷ (b'0' + n % 10) ∷ []

-- The file name made of the formatted time and the milliseconds; `name` holds 63 characters.
unfoldable pub snapshot_name : Bytes → ℕ → Bytes
snapshot_name base now_ms =
    take 63 (base ++ b'_' ∷ (pad3 (now_ms % 1000) ++ b'.' ∷ b'j' ∷ b'p' ∷ b'g' ∷ []))

-- `std::sort` by falling mtime. Where two times are equal its order is not fixed; here it is kept.
insert_newest : FileInfo → List FileInfo → List FileInfo
insert_newest f [] = f ∷ []
insert_newest f (g ∷ gs) = if ltb f.mtime g.mtime then g ∷ insert_newest f gs else f ∷ g ∷ gs

sort_newest : List FileInfo → List FileInfo
unfolding insert_newest
sort_newest [] = []
sort_newest (f ∷ fs) = insert_newest f (sort_newest fs)

pub is_hidden : Bytes → Bool
is_hidden [] = false
is_hidden (c ∷ cs) = c == dot

module _ {D Image : Type 0} (fs : FileSystem D Image) where
  pub init : FileManager → D → D × Bool
  init m d = let (d', made) = fs.mkdir d m.dir in (d', elim made [ failed ↦ false | _ ↦ true ])

  -- The result "" of a failure is `none`. `base` is the wall-clock time as `strftime` formats it.
  unfoldable pub snapshot : FileManager → Bytes → ℕ → Image → D → D × Option Bytes
  snapshot m base now_ms bgr d =
      if fs.is_empty bgr
      then (d, none)
      else let (d', done) =
          fs.imwrite d (join m.dir (snapshot_name base now_ms)) bgr m.jpeg_quality in
        (d', if done then some (snapshot_name base now_ms) else none)

  entry_info : Bytes → Bytes → Option FileStat → List FileInfo
  entry_info dir name none = []
  entry_info dir name (some st) =
      if not st.is_regular
      then []
      else record { name = name; size = st.size; mtime = st.mtime } ∷ []

  -- The loop over the directory's entries.
  collect : FileManager → D → List Bytes → List FileInfo
  unfolding entry_info is_hidden
  collect m d [] = []
  collect m d (e ∷ es) =
      (if is_hidden e then [] else entry_info m.dir e (fs.stat d (join m.dir e))) ++ collect m d es

  list_entries : FileManager → D → Option (List Bytes) → List FileInfo
  unfolding collect sort_newest
  list_entries m d none = []
  list_entries m d (some es) = sort_newest (collect m d es)

  unfoldable pub list : FileManager → D → List FileInfo
  unfolding list_entries
  list m d = list_entries m d (fs.readdir d m.dir)

  read_bytes : Option ℕ → (ℕ → Bytes) → Option Bytes
  read_bytes none fread = none
  read_bytes (some sz) fread =
      let out = if sz == 0 then [] else fread sz in if length out == sz then some out else none

  read_open : Option OpenFile → Option Bytes
  unfolding read_bytes
  read_open none = none
  read_open (some f) = read_bytes f.end f.fread

  read_path : D → Option Bytes → Option Bytes
  unfolding read_open
  read_path d none = none
  read_path d (some full) = read_open (fs.fopen d full)

  -- `none` is the result false, on which `out` is not used.
  unfoldable pub read : FileManager → Bytes → D → Option Bytes
  unfolding read_path
  read m name d = read_path d (resolve m name)

  remove_path : D → Option Bytes → D × Bool
  remove_path d none = (d, false)
  remove_path d (some full) = fs.unlink d full

  unfoldable pub remove : FileManager → Bytes → D → D × Bool
  unfolding remove_path
  remove m name d = remove_path d (resolve m name)
