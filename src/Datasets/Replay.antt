-- ===== src/Datasets/Replay.antt =====
-- What the replay of a dataset's history gives for each file.
use muvee.Prelude.{
  ℕ, zero, suc, ◌≤◌, ◌≡◌, refl, ap, String, true, some, List, [], ◌∷◌, ◌++◌, arith, ◌==◌, select,
  take, length, length-append, str_eq, eq_iff,
}
use muvee.Datasets.{
  DatasetFileHistory, FileEventType, Catalog, Files, find_file, replay_row, replay, reverse,
  has_snapshot, list_file_history, history_limit, previous_files,
}

pub str_eq_self : (x : String) → str_eq x x ≡ true
str_eq_self x = (eq_iff x x).1 refl

replay-append :
    (hs : List DatasetFileHistory) (h : DatasetFileHistory) (fs : Files)
    → replay (hs ++ h ∷ []) fs ≡ replay_row h (replay hs fs)
unfolding replay
replay-append [] h fs = refl
replay-append (x ∷ xs) h fs = replay-append xs h (replay_row x fs)

take-all : (n : ℕ) (xs : List DatasetFileHistory) → length xs ≤ n → take n xs ≡ xs
take-all zero [] h = refl
take-all zero (x ∷ xs) h = absurd (omega (arith, h))
take-all (suc n) [] h = refl
take-all (suc n) (x ∷ xs) h = ap (◌∷◌ x) (take-all n xs (omega (arith, h)))

length-reverse : (xs : List DatasetFileHistory) → length (reverse xs) ≡ length xs
length-reverse [] = refl
length-reverse (x ∷ xs) = omega (arith, length-append (reverse xs) (x ∷ []), length-reverse xs)

-- The row of the replay that comes last decides.
find-replay_row :
    (h : DatasetFileHistory) (fs : Files)
    → h.event_type ≡ FileEventType.added
    → find_file h.file_path (replay_row h fs) ≡ some h
unfolding find_file replay_row
find-replay_row h fs e = rw e (rw (str_eq_self h.file_path) refl)

-- The state of a file with which a scan compares is that of the oldest row of the dataset's
-- history, if that row added it, whatever has been recorded of the file since. The history is
-- assumed to fit in the query's limit.
pub previous-oldest :
    (n : ℕ) (h : DatasetFileHistory) (later : List DatasetFileHistory) (c : Catalog)
    → has_snapshot n c ≡ true
    → select (λ x. x.dataset_id == n) c.history ≡ h ∷ later
    → length (h ∷ later) ≤ history_limit
    → h.event_type ≡ FileEventType.added
    → find_file h.file_path (previous_files n c) ≡ some h
unfolding previous_files list_file_history
previous-oldest n h later c s e l k =
    let whole =
      take-all history_limit (reverse later ++ h ∷ [])
        (omega (arith, l, length-append (reverse later) (h ∷ []), length-reverse later)) in
    rw s (
      rw e (
        rw whole (
          rw (replay-append (reverse later) h [])
            (find-replay_row h (replay (reverse later) []) k))))
