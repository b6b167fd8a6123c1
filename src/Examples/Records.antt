-- ===== src/Examples/Records.antt =====
-- The theorems on project events and on the scan of datasets, applied.
use muvee.Prelude.{◌≡◌, refl, none, some, List, [], ◌∷◌, arith}
use muvee.Events.{Event, Ring, events_since}
use muvee.Events.Follow.{IsRing, push_all, numbered, follow-all}
use muvee.Datasets.{
  Dataset, DatasetFileHistory, FileEventType, FileEntry, Catalog, get_dataset, scan_dataset,
  total_size, find_file, replay, previous_files, diff, has_snapshot,
}
use muvee.Datasets.Versions.{scan-writes_back}
use muvee.Datasets.Replay.{previous-oldest}
use muvee.Datasets.Diff.{checksum_of, found, diff-replays}

abbrev restart : Event
restart = record {
  id = 0;
  project_id = 7;
  kind = "restart";
  severity = "info";
  message = "restarted";
  at = 5;
}

abbrev one_event : Ring
one_event = record { next_id = 1; events = record restart { id = 1 } ∷ [] }

one_event-IsRing : IsRing one_event
one_event-IsRing = record { bounded = omega arith; given = (omega arith, tt) }

follow-all_example :
    events_since 1 0 (push_all (restart ∷ restart ∷ []) one_event)
    ≡ numbered 1 (restart ∷ restart ∷ [])
follow-all_example = follow-all one_event (restart ∷ restart ∷ []) one_event-IsRing (omega arith)

abbrev faces : Dataset
faces = record {
  id = 4;
  name = "faces";
  nfs_path = "faces";
  size_bytes = 10;
  checksum = "";
  version = 3;
  updated_at = 0;
}

abbrev first_row : DatasetFileHistory
first_row = record {
  dataset_id = 4;
  file_path = "a.png";
  event_type = FileEventType.added;
  old_size = 0;
  new_size = 10;
  old_checksum = "";
  new_checksum = "01";
  snapshot_id = 1;
}

abbrev second_row : DatasetFileHistory
second_row = record first_row {
  event_type = FileEventType.modified;
  old_checksum = "01";
  new_checksum = "02";
  snapshot_id = 2;
}

abbrev catalog : Catalog
catalog = record {
  datasets = faces ∷ [];
  snapshots =
      record {
        id = 2;
        dataset_id = 4;
        scanned_at = 0;
        total_files = 1;
        total_size_bytes = 10;
        version = 3;
      }
      ∷ [];
  history = first_row ∷ second_row ∷ [];
}

abbrev on_disk : List FileEntry
on_disk =
    record { path = "a.png"; size = 10; checksum = "02" }
    ∷ record { path = "b.png"; size = 5; checksum = "09" }
    ∷ []

scan-writes_back_example :
    get_dataset 4 (scan_dataset 8 9 on_disk faces catalog)
    ≡ some (record faces { size_bytes = total_size on_disk; updated_at = 8 })
unfolding get_dataset
scan-writes_back_example = scan-writes_back 8 9 on_disk faces faces catalog refl

previous-oldest_example : find_file "a.png" (previous_files 4 catalog) ≡ some first_row
unfolding has_snapshot
previous-oldest_example =
    previous-oldest 4 first_row (second_row ∷ []) catalog refl refl (omega arith) refl

diff-replays_example :
    checksum_of (
      find_file "b.png"
        (replay (diff 4 9 (("a.png", first_row) ∷ []) on_disk) (("a.png", first_row) ∷ [])))
    ≡ found "b.png" on_disk none
diff-replays_example =
    diff-replays 4 9 "b.png" (("a.png", first_row) ∷ []) on_disk (refl, (refl, tt))
