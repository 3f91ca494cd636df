-- ===== src/Core/Registry.antt =====
-- terminal/src/core/ClientRegistry.h: the running client sessions, one entry for each. The mutex
-- makes each call one step. A session is known by a number; `joined` lists those whose thread was
-- joined; `client_count` is the counter of the StatusBoard that the registry keeps.
use qt_s5p6818_face_tracking.Base.{ℕ, Bool, false, List, [], ◌∷◌, ◌++◌, map, length, if◌then◌else◌}

-- An entry, with the two flags of its session that ISession.h shows.
pub record Entry : Type 0 where
  pub session : ℕ
  pub finished : Bool
  pub stopping : Bool

pub record Registry : Type 0 where
  pub entries : List Entry
  pub joined : List ℕ
  pub client_count : ℕ

abbrev pub empty_registry : Registry
empty_registry = record { entries = []; joined = []; client_count = 0 }

unfoldable pub adopt : Registry → ℕ → Registry
adopt r session =
    let entries =
      r.entries ++ record { session = session; finished = false; stopping = false } ∷ [] in
    record r { entries = entries; client_count = length entries }

-- The loop's two results: the entries that stay and the sessions joined, in order.
unfoldable pub still_running : List Entry → List Entry
still_running [] = []
still_running (e ∷ es) = if e.finished then still_running es else e ∷ still_running es

unfoldable pub all_finished : List Entry → List ℕ
all_finished [] = []
all_finished (e ∷ es) = if e.finished then e.session ∷ all_finished es else all_finished es

unfoldable pub reap_finished : Registry → Registry
reap_finished r = record {
  entries = still_running r.entries;
  joined = r.joined ++ all_finished r.entries;
  client_count = length (still_running r.entries);
}

-- What `requestStop` and the joins behind it were called on, in order.
unfoldable pub stop_all : Registry → Registry
stop_all r = record {
  entries = [];
  joined = r.joined ++ map (λ e. e.session) r.entries;
  client_count = 0;
}

unfoldable pub count : Registry → ℕ
count r = length r.entries
