-- ===== src/Datasets/Diff.antt =====
-- The changes that a scan records, the files that it compares with and the files that it found.
use mathlib.Core.Path.{subst}
use muvee.Prelude.{
  ℕ, ◌≡◌, refl, sym, ap, ◌∙◌, inl, inr, String, true, false, Option, none, some, List, [], ◌∷◌,
  ◌++◌, arith, if◌then◌else◌, str_eq, eq_iff, Bool-cases,
}
use muvee.Datasets.{
  DatasetFileHistory, FileEventType, FileEntry, Files, remove_file, find_file, replay_row, replay,
  added_row, modified_row, deleted_row, change_of, changes, is_current, deletions, diff,
}
use muvee.Datasets.Replay.{str_eq_self}

find-remove_self : (x : String) (fs : Files) → find_file x (remove_file x fs) ≡ none
unfolding find_file remove_file
find-remove_self x [] = refl
find-remove_self x ((y, h) ∷ fs) = ground (arith, find-remove_self x fs)

find-remove_other :
    (x y : String) (fs : Files)
    → str_eq y x ≡ false
    → find_file x (remove_file y fs) ≡ find_file x fs
unfolding find_file remove_file
find-remove_other x y [] h = refl
find-remove_other x y ((z, r) ∷ fs) h = elim (Bool-cases (str_eq z y)) [
  | inl e ↦
      let q : str_eq z x ≡ false = ap (λ (w : String). str_eq w x) ((eq_iff z y).0 e) ∙ h in
      ground (arith, e, q, find-remove_other x y fs h)
  | inr e ↦ ground (arith, e, find-remove_other x y fs h)
]

find-row_other :
    (x : String) (h : DatasetFileHistory) (k : FileEventType) (fs : Files)
    → str_eq h.file_path x ≡ false
    → find_file x (replay_row (record h { event_type = k }) fs) ≡ find_file x fs
unfolding replay_row find_file
find-row_other x h FileEventType.deleted fs e = find-remove_other x h.file_path fs e
find-row_other x h _ fs e = rw e (find-remove_other x h.file_path fs e)

find-row :
    (x : String) (h : DatasetFileHistory) (fs : Files)
    → str_eq h.file_path x ≡ false
    → find_file x (replay_row h fs) ≡ find_file x fs
find-row x h fs e = find-row_other x h h.event_type fs e

replay_append :
    (hs gs : List DatasetFileHistory) (fs : Files) → replay (hs ++ gs) fs ≡ replay gs (replay hs fs)
unfolding replay
replay_append [] gs fs = refl
replay_append (h ∷ hs) gs fs = replay_append hs gs (replay_row h fs)

abbrev pub checksum_of : Option DatasetFileHistory → Option String
checksum_of none = none
checksum_of (some h) = some h.new_checksum

-- No path occurs twice.
abbrev pub NoRepeat : List FileEntry → Type 0
NoRepeat [] = Unit
NoRepeat (f ∷ fs) = (is_current fs f.path ≡ false) × NoRepeat fs

-- The checksum of a path in what the walk found, or else what is given.
abbrev pub found : String → List FileEntry → Option String → Option String
found x [] o = o
found x (f ∷ fs) o = if str_eq f.path x then some f.checksum else found x fs o

module _ (ds snap : ℕ) where
  change-other :
      (x : String) (f : FileEntry) (o : Option DatasetFileHistory) (st : Files)
      → str_eq f.path x ≡ false
      → find_file x (replay (change_of ds snap f o) st) ≡ find_file x st
  unfolding change_of replay
  change-other x f none st e = find-row x (added_row ds snap f) st e
  change-other x f (some p) st e = elim (Bool-cases (str_eq p.new_checksum f.checksum)) [
    | inl s ↦ rw s refl
    | inr s ↦ rw s (find-row x (modified_row ds snap f p) st e)
  ]

  change_self :
      (f : FileEntry) (o : Option DatasetFileHistory) (st : Files)
      → find_file f.path st ≡ o
      → checksum_of (find_file f.path (replay (change_of ds snap f o) st)) ≡ some f.checksum
  unfolding change_of replay replay_row find_file
  change_self f none st e = rw (str_eq_self f.path) refl
  change_self f (some p) st e = elim (Bool-cases (str_eq p.new_checksum f.checksum)) [
    | inl s ↦ rw s (ap checksum_of e ∙ ap some ((eq_iff p.new_checksum f.checksum).0 s))
    | inr s ↦ rw s (rw (str_eq_self f.path) refl)
  ]

  changes-untouched :
      (x : String) (prev : Files) (fs : List FileEntry) (st : Files)
      → is_current fs x ≡ false
      → find_file x (replay (changes ds snap prev fs) st) ≡ find_file x st
  unfolding changes replay
  changes-untouched x prev [] st h = refl
  changes-untouched x prev (f ∷ fs) st h =
      let head : str_eq f.path x ≡ false = ground arith in
      let o = find_file f.path prev in
      ap (find_file x) (replay_append (change_of ds snap f o) (changes ds snap prev fs) st)
      ∙ changes-untouched x prev fs (replay (change_of ds snap f o) st) (ground arith)
      ∙ change-other x f o st head

  found-absent :
      (x : String) (fs : List FileEntry) (o : Option String)
      → is_current fs x ≡ false
      → found x fs o ≡ o
  found-absent x [] o h = refl
  found-absent x (f ∷ fs) o h = ground (arith, found-absent x fs o)

  found-present :
      (x : String) (fs : List FileEntry) (o q : Option String)
      → is_current fs x ≡ true
      → found x fs o ≡ found x fs q
  found-present x [] o q h = cc
  found-present x (f ∷ fs) o q h = ground (arith, found-present x fs o q)

  changes-found :
      (x : String) (prev : Files) (fs : List FileEntry) (st : Files)
      → NoRepeat fs
      → find_file x st ≡ find_file x prev
      → checksum_of (find_file x (replay (changes ds snap prev fs) st))
        ≡ found x fs (checksum_of (find_file x prev))
  unfolding changes replay
  changes-found x prev [] st u e = ap checksum_of e
  changes-found x prev (f ∷ fs) st u e =
      let o = find_file f.path prev in
      let next = replay (change_of ds snap f o) st in
      ap (λ (s : Files). checksum_of (find_file x s))
        (replay_append (change_of ds snap f o) (changes ds snap prev fs) st)
      ∙ elim (Bool-cases (str_eq f.path x)) [
        | inl h ↦
            let p : f.path ≡ x = (eq_iff f.path x).0 h in
            ap checksum_of (changes-untouched x prev fs next (ap (is_current fs) (sym p) ∙ u.0))
            ∙ subst (λ y. checksum_of (find_file y next) ≡ some f.checksum) p
                (change_self f o st (subst (λ y. find_file y st ≡ find_file y prev) (sym p) e))
            ∙ rw h refl
        | inr h ↦ changes-found x prev fs next u.1 (change-other x f o st h ∙ e) ∙ rw h refl
      ]

  not_current :
      (x y : String) (fs : List FileEntry)
      → is_current fs x ≡ true
      → is_current fs y ≡ false
      → str_eq y x ≡ false
  not_current x y fs h k = elim (Bool-cases (str_eq y x)) [
    | inl e ↦ absurd (clash (sym h ∙ ap (is_current fs) (sym ((eq_iff y x).0 e)) ∙ k))
    | inr e ↦ e
  ]
    where
      clash : true ≡ false → ⊥
      clash c = cc

  deletions-current :
      (x : String) (fs : List FileEntry) (ps st : Files)
      → is_current fs x ≡ true
      → find_file x (replay (deletions ds snap fs ps) st) ≡ find_file x st
  unfolding deletions replay
  deletions-current x fs [] st h = refl
  deletions-current x fs ((y, p) ∷ ps) st h = elim (Bool-cases (is_current fs y)) [
    | inl e ↦ rw e (deletions-current x fs ps st h)
    | inr e ↦ rw e (
        deletions-current x fs ps (replay_row (deleted_row ds snap y p) st) h
        ∙ find-row x (deleted_row ds snap y p) st (not_current x y fs h e))
  ]

  abbrev cleared : Option DatasetFileHistory → Option DatasetFileHistory → Option DatasetFileHistory
  cleared none o = o
  cleared (some p) o = none

  cleared-none : (o : Option DatasetFileHistory) → cleared o none ≡ none
  cleared-none none = refl
  cleared-none (some p) = refl

  deletions-absent :
      (x : String) (fs : List FileEntry) (ps st : Files)
      → is_current fs x ≡ false
      → find_file x (replay (deletions ds snap fs ps) st)
        ≡ cleared (find_file x ps) (find_file x st)
  unfolding deletions replay find_file replay_row
  deletions-absent x fs [] st h = refl
  deletions-absent x fs ((y, p) ∷ ps) st h = elim (Bool-cases (str_eq y x)) [
    | inl e ↦
        let i : y ≡ x = (eq_iff y x).0 e in
        let gone : is_current fs y ≡ false = ap (is_current fs) i ∙ h in
        rw e (
          rw gone (
            deletions-absent x fs ps (remove_file y st) h
            ∙ ap (cleared (find_file x ps))
                (ap (λ (z : String). find_file x (remove_file z st)) i ∙ find-remove_self x st)
            ∙ cleared-none (find_file x ps)))
    | inr e ↦ elim (Bool-cases (is_current fs y)) [
      | inl c ↦ rw e (rw c (deletions-absent x fs ps st h))
      | inr c ↦ rw e (
          rw c (
            deletions-absent x fs ps (remove_file y st) h
            ∙ ap (cleared (find_file x ps)) (find-remove_other x y st e)))
    ]
  ]

  cleared_self : (o : Option DatasetFileHistory) → cleared o o ≡ none
  cleared_self none = refl
  cleared_self (some p) = refl

  -- The changes that a scan records, replayed from the first to the last over the files that it
  -- compared with, give for every path the checksum that the walk found, and nothing for a path
  -- that it did not find. The walk finds no path twice.
  pub diff-replays :
      (x : String) (prev : Files) (current : List FileEntry)
      → NoRepeat current
      → checksum_of (find_file x (replay (diff ds snap prev current) prev)) ≡ found x current none
  unfolding diff
  diff-replays x prev current u =
      let all = changes ds snap prev current in
      let next = replay all prev in
      ap (λ (s : Files). checksum_of (find_file x s))
        (replay_append all (deletions ds snap current prev) prev)
      ∙ elim (Bool-cases (is_current current x)) [
        | inl h ↦
            ap checksum_of (deletions-current x current prev next h)
            ∙ changes-found x prev current prev u refl
            ∙ found-present x current (checksum_of (find_file x prev)) none h
        | inr h ↦
            ap checksum_of (
              deletions-absent x current prev next h
              ∙ ap (cleared (find_file x prev)) (changes-untouched x prev current prev h)
              ∙ cleared_self (find_file x prev))
            ∙ sym (found-absent x current none h)
      ]
