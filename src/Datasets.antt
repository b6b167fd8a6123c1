-- ===== src/Datasets.antt =====
-- ScanDataset of internal/monitor/monitor.go with the statements of internal/store/store.go that it
-- runs. The walk over the files is not modelled: `current` is what it found. The two maps are
-- association lists; Go visits a map in any order, and the lists' order is one of them. Rows of the
-- history are kept in the order in which they occurred.
pub mod Versions
pub mod Replay
pub mod Diff
use muvee.Prelude.{
  ℕ, ◌+◌, String, Bool, true, false, Option, none, some, List, [], ◌∷◌, ◌++◌, ◌==◌, ◌&&◌, not, any,
  first, select, update, take, length, map, if◌then◌else◌, str_eq,
}

pub record Dataset : Type 0 where
  pub id : ℕ
  pub name : String
  pub nfs_path : String
  pub size_bytes : ℕ
  pub checksum : String
  pub version : ℕ
  pub updated_at : ℕ

pub data FileEventType : Type 0 where
  added modified deleted : FileEventType

pub record DatasetFileHistory : Type 0 where
  pub dataset_id : ℕ
  pub file_path : String
  pub event_type : FileEventType
  pub old_size : ℕ
  pub new_size : ℕ
  pub old_checksum : String
  pub new_checksum : String
  pub snapshot_id : ℕ

pub record DatasetSnapshot : Type 0 where
  pub id : ℕ
  pub dataset_id : ℕ
  pub scanned_at : ℕ
  pub total_files : ℕ
  pub total_size_bytes : ℕ
  pub version : ℕ

pub record FileEntry : Type 0 where
  pub path : String
  pub size : ℕ
  pub checksum : String

-- The tables that a scan uses.
pub record Catalog : Type 0 where
  pub datasets : List Dataset
  pub snapshots : List DatasetSnapshot
  pub history : List DatasetFileHistory

unfoldable pub get_dataset : ℕ → Catalog → Option Dataset
get_dataset n c = first (λ d. d.id == n) c.datasets

unfoldable pub update_dataset : ℕ → Dataset → Catalog → Catalog
update_dataset now d c = record c {
  datasets = update (λ e. e.id == d.id) (λ e. record d { updated_at = now }) c.datasets;
}

unfoldable pub increment_dataset_version : ℕ → ℕ → Catalog → Catalog
increment_dataset_version now n c = record c {
  datasets =
      update (λ e. e.id == n) (λ e. record e { version = e.version + 1; updated_at = now })
        c.datasets;
}

-- Is there a latest snapshot?
unfoldable pub has_snapshot : ℕ → Catalog → Bool
has_snapshot n c = any (λ s. s.dataset_id == n) c.snapshots

abbrev pub reverse : List DatasetFileHistory → List DatasetFileHistory
reverse [] = []
reverse (h ∷ hs) = reverse hs ++ h ∷ []

-- ORDER BY occurred_at DESC LIMIT $2: the newest rows first.
unfoldable pub list_file_history : ℕ → ℕ → Catalog → List DatasetFileHistory
list_file_history n limit c = take limit (reverse (select (λ h. h.dataset_id == n) c.history))

unfoldable pub bulk_insert_file_history : List DatasetFileHistory → Catalog → Catalog
bulk_insert_file_history items c = record c { history = c.history ++ items }

abbrev pub Files : Type 0
Files = List (String × DatasetFileHistory)

unfoldable pub remove_file : String → Files → Files
remove_file x [] = []
remove_file x ((y, h) ∷ fs) =
    let rest = remove_file x fs in if str_eq y x then rest else (y, h) ∷ rest

unfoldable pub find_file : String → Files → Option DatasetFileHistory
find_file x [] = none
find_file x ((y, h) ∷ fs) = if str_eq y x then some h else find_file x fs

-- One row of the replay.
unfoldable pub replay_row : DatasetFileHistory → Files → Files
unfolding remove_file
replay_row h fs = elim h.event_type [
  | FileEventType.deleted ↦ remove_file h.file_path fs
  | _ ↦ (h.file_path, h) ∷ remove_file h.file_path fs
]

-- The loop over the history, from its first row to its last.
unfoldable pub replay : List DatasetFileHistory → Files → Files
unfolding replay_row
replay [] fs = fs
replay (h ∷ hs) fs = replay hs (replay_row h fs)

abbrev pub history_limit : ℕ
history_limit = 100_000

unfoldable pub previous_files : ℕ → Catalog → Files
unfolding replay has_snapshot list_file_history
previous_files n c =
    if has_snapshot n c then replay (list_file_history n history_limit c) [] else []

abbrev pub added_row : ℕ → ℕ → FileEntry → DatasetFileHistory
added_row ds snap f = record {
  dataset_id = ds;
  file_path = f.path;
  event_type = FileEventType.added;
  old_size = 0;
  new_size = f.size;
  old_checksum = "";
  new_checksum = f.checksum;
  snapshot_id = snap;
}

abbrev pub modified_row : ℕ → ℕ → FileEntry → DatasetFileHistory → DatasetFileHistory
modified_row ds snap f prev = record {
  dataset_id = ds;
  file_path = f.path;
  event_type = FileEventType.modified;
  old_size = prev.new_size;
  new_size = f.size;
  old_checksum = prev.new_checksum;
  new_checksum = f.checksum;
  snapshot_id = snap;
}

abbrev pub deleted_row : ℕ → ℕ → String → DatasetFileHistory → DatasetFileHistory
deleted_row ds snap x prev = record {
  dataset_id = ds;
  file_path = x;
  event_type = FileEventType.deleted;
  old_size = prev.new_size;
  new_size = 0;
  old_checksum = prev.new_checksum;
  new_checksum = "";
  snapshot_id = snap;
}

-- What is recorded of a file that is there.
unfoldable pub change_of : ℕ → ℕ → FileEntry → Option DatasetFileHistory → List DatasetFileHistory
change_of ds snap f none = added_row ds snap f ∷ []
change_of ds snap f (some prev) =
    if str_eq prev.new_checksum f.checksum then [] else modified_row ds snap f prev ∷ []

unfoldable pub changes : ℕ → ℕ → Files → List FileEntry → List DatasetFileHistory
unfolding change_of find_file
changes ds snap prev [] = []
changes ds snap prev (f ∷ fs) =
    change_of ds snap f (find_file f.path prev) ++ changes ds snap prev fs

abbrev pub is_current : List FileEntry → String → Bool
is_current fs x = any (λ f. str_eq f.path x) fs

unfoldable pub deletions : ℕ → ℕ → List FileEntry → Files → List DatasetFileHistory
deletions ds snap fs [] = []
deletions ds snap fs ((x, prev) ∷ rest) =
    let others = deletions ds snap fs rest in
    if is_current fs x then others else deleted_row ds snap x prev ∷ others

unfoldable pub diff : ℕ → ℕ → Files → List FileEntry → List DatasetFileHistory
unfolding changes deletions
diff ds snap prev current = changes ds snap prev current ++ deletions ds snap current prev

unfoldable pub total_size : List FileEntry → ℕ
total_size [] = 0
total_size (f ∷ fs) = f.size + total_size fs

-- The rows are written, and the version goes up, where something has changed.
unfoldable pub record_changes : ℕ → ℕ → List DatasetFileHistory → Catalog → Catalog
unfolding bulk_insert_file_history increment_dataset_version
record_changes now ds [] c = c
record_changes now ds (h ∷ hs) c =
    increment_dataset_version now ds (bulk_insert_file_history (h ∷ hs) c)

-- CreateDatasetSnapshot, of what the walk found and the version that was read.
unfoldable pub take_snapshot : ℕ → ℕ → List FileEntry → Dataset → Catalog → Catalog
unfolding total_size
take_snapshot now snap current ds c =
    let shot : DatasetSnapshot = record {
      id = snap;
      dataset_id = ds.id;
      scanned_at = now;
      total_files = length current;
      total_size_bytes = total_size current;
      version = ds.version;
    } in
    record c { snapshots = c.snapshots ++ shot ∷ [] }

-- ScanDataset, with the id of the new snapshot. `ds` is the row as ScanAll read it.
unfoldable pub scan_dataset : ℕ → ℕ → List FileEntry → Dataset → Catalog → Catalog
unfolding previous_files take_snapshot diff record_changes update_dataset
scan_dataset now snap current ds c =
    let events = diff ds.id snap (previous_files ds.id c) current in
    update_dataset now (record ds { size_bytes = total_size current })
      (record_changes now ds.id events (take_snapshot now snap current ds c))
