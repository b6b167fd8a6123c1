-- ===== src/Datasets/Versions.antt =====
-- What a scan does to the dataset's own row.
use mathlib.Core.Option
use muvee.Prelude.{
  ℕ, ◌+◌, ◌≡◌, refl, ap, ◌∙◌, true, some, List, [], ◌∷◌, arith, ◌==◌, first, update, ==_refl,
}
use muvee.Datasets.{
  Dataset, DatasetFileHistory, FileEntry, Catalog, get_dataset, update_dataset,
  increment_dataset_version, bulk_insert_file_history, record_changes, previous_files, diff,
  take_snapshot, total_size, scan_dataset,
}

first-update_key :
    (f : Dataset → Dataset) (n : ℕ) (xs : List Dataset)
    → ((e : Dataset) → (e.id == n) ≡ true → ((f e).id == n) ≡ true)
    → first (λ d. d.id == n) (update (λ d. d.id == n) f xs)
      ≡ Option.map f (first (λ d. d.id == n) xs)
first-update_key f n [] h = refl
first-update_key f n (x ∷ xs) h = ground (arith, h x, first-update_key f n xs h)

increment-found :
    (now n : ℕ) (d : Dataset) (c : Catalog)
    → get_dataset n c ≡ some d
    → get_dataset n (increment_dataset_version now n c)
      ≡ some (record d { version = d.version + 1; updated_at = now })
unfolding get_dataset increment_dataset_version
increment-found now n d c e =
    let f : Dataset → Dataset = λ x. record x { version = x.version + 1; updated_at = now } in
    first-update_key f n c.datasets (λ x h. h) ∙ ap (Option.map f) e

update-found :
    (now : ℕ) (d e : Dataset) (c : Catalog)
    → get_dataset d.id c ≡ some e
    → get_dataset d.id (update_dataset now d c) ≡ some (record d { updated_at = now })
unfolding get_dataset update_dataset
update-found now d e c h =
    let f : Dataset → Dataset = λ x. record d { updated_at = now } in
    first-update_key f d.id c.datasets (λ x k. ==_refl d.id) ∙ ap (Option.map f) h

recorded :
    (now n : ℕ) (hs : List DatasetFileHistory) (d : Dataset) (c : Catalog)
    → get_dataset n c ≡ some d
    → (e : Dataset) × (get_dataset n (record_changes now n hs c) ≡ some e)
unfolding record_changes bulk_insert_file_history get_dataset
recorded now n [] d c h = (d, h)
recorded now n (x ∷ xs) d c h = (
  record d { version = d.version + 1; updated_at = now },
  increment-found now n d (bulk_insert_file_history (x ∷ xs) c) h,
)

-- After a scan the dataset's row is the one that the scan was given, with the new size: its version
-- is the one that was read before the scan, whatever changes the scan has recorded.
pub scan-writes_back :
    (now snap : ℕ) (current : List FileEntry) (ds old : Dataset) (c : Catalog)
    → get_dataset ds.id c ≡ some old
    → get_dataset ds.id (scan_dataset now snap current ds c)
      ≡ some (record ds { size_bytes = total_size current; updated_at = now })
unfolding scan_dataset take_snapshot get_dataset
scan-writes_back now snap current ds old c h =
    let events = diff ds.id snap (previous_files ds.id c) current in
    let r = recorded now ds.id events old (take_snapshot now snap current ds c) h in
    update-found now (record ds { size_bytes = total_size current }) r.0
      (record_changes now ds.id events (take_snapshot now snap current ds c)) r.1
