-- ===== src/Ui/Browser.antt =====
-- pc-client/src/ui/FileBrowser.cpp: the list of the terminal's files, with its buttons.
use qt_s5p6818_face_tracking.Base.{
  Bool, true, false, not, List, [], ◌∷◌, Bytes, Option, none, some, equal, if◌then◌else◌,
}
use qt_s5p6818_face_tracking.Client.{RemoteFile}

-- The files shown, the name of the selected one, and whether the list and the buttons take input.
pub record FileBrowser : Type 0 where
  pub items : List RemoteFile
  pub current : Option Bytes
  pub enabled : Bool

pub data FileIntention : Type 0 where
  refresh_requested snapshot_requested : FileIntention
  download_requested delete_requested : Bytes → FileIntention

pub data FileButton : Type 0 where
  refresh snapshot download remove : FileButton

unfoldable pub set_enabled : FileBrowser → Bool → FileBrowser
set_enabled b on =
    if not on
    then record { items = []; current = none; enabled = on }
    else record b { enabled = on }

-- The constructor.
unfoldable pub create_browser : FileBrowser
unfolding set_enabled
create_browser = set_enabled (record { items = []; current = none; enabled = true }) false

unfoldable pub current_name : FileBrowser → Bytes
current_name b = elim b.current [ none ↦ [] | some n ↦ n ]

-- The item that the loop selects, after `now`: an item is chosen when it has the name to keep.
unfoldable pub reselect : Bytes → Option Bytes → List RemoteFile → Option Bytes
unfolding equal
reselect keep now [] = now
reselect keep now (f ∷ fs) = reselect keep (if equal f.name keep then some f.name else now) fs

unfoldable pub set_files : FileBrowser → List RemoteFile → FileBrowser
unfolding current_name reselect
set_files b files = record b { items = files; current = reselect (current_name b) none files }

-- A request for the selected file, if there is one.
unfoldable pub for_current : FileBrowser → (Bytes → FileIntention) → Option FileIntention
unfolding current_name equal
for_current b wish = if equal (current_name b) [] then none else some (wish (current_name b))

unfoldable pub press : FileBrowser → FileButton → Option FileIntention
unfolding for_current
press b button = if not b.enabled then none else elim button [
  | refresh ↦ some refresh_requested
  | snapshot ↦ some snapshot_requested
  | download ↦ for_current b download_requested
  | remove ↦ for_current b delete_requested
]
