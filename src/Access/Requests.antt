-- ===== src/Access/Requests.antt =====
-- The pending requests of a user for a project.
use muvee.Prelude.{
  ℕ, ◌≤◌, ◌≡◌, refl, sym, ap, ◌∙◌, Bool, false, ◌&&◌, Option, none, some, List, [], ◌∷◌, ◌++◌, ◌==◌,
  Bool-cases, inl, inr, arith, first, update, count, count-append, count-update-le, count-le-length,
  ==_iff, String, str_eq,
}
use mathlib.Core.Path.{subst}
use muvee.Access.{
  ProjectRow, UserRow, RequestStatus, ProjectAccessRequest, AccessDb, is_open, is_pending,
  is_listed, get_row, get_access_request, add_project_access_user, remove_project_access_user,
  reuse_or_insert, create_for_row, create_access_request, Decision, approve, deny, grant,
  settle_request, decide_row, decide_access_request, may_manage, handle_for_row, handle_existing,
  handle_decide, status_of,
}

-- What may happen to the allow-lists and the requests.
pub data Step : AccessDb → AccessDb → Type 0 where
  creates :
      (trim : String → String) (now p u : ℕ) (reason : String) (db : AccessDb)
      → Step db (create_access_request trim now p u reason db).1
  decides :
      (d : Decision) (now n : ℕ) (caller : UserRow) (db : AccessDb)
      → Step db (handle_decide d now caller n db).1
  adds : (now p u by : ℕ) (db : AccessDb) → Step db (add_project_access_user now p u by db)
  removes : (p u : ℕ) (db : AccessDb) → Step db (remove_project_access_user p u db)

-- No user has two pending requests for one project.
abbrev pub IsSingle : List ProjectAccessRequest → Type 0
IsSingle rs = (p u : ℕ) → count (is_open p u) rs ≤ 1

count_of_first : {A : Type 0} (p : A → Bool) (xs : List A) → first p xs ≡ none → count p xs ≡ 0
count_of_first p [] h = refl
count_of_first p (x ∷ xs) h = ground (arith, count_of_first p xs)

insert-count :
    (p u q v : ℕ) (r : ProjectAccessRequest) (rs : List ProjectAccessRequest)
    → r.project_id ≡ p
    → r.user_id ≡ u
    → count (is_open p u) rs ≡ 0
    → count (is_open q v) rs ≤ 1
    → count (is_open q v) (rs ++ r ∷ []) ≤ 1
insert-count p u q v r rs a b h k = elim (Bool-cases ((p == q) && (u == v))) [
  | inl e ↦
      let none_open : count (is_open q v) rs ≡ 0 =
        ap (λ x. count (is_open x v) rs) (sym ((==_iff p q).0 (ground arith)))
        ∙ ap (λ y. count (is_open p y) rs) (sym ((==_iff u v).0 (ground arith)))
        ∙ h in
      omega (
        arith,
        count-append (is_open q v) rs (r ∷ []),
        none_open,
        count-le-length (is_open q v) (r ∷ []),
      )
  | inr e ↦ ground (arith, count-append (is_open q v) rs (r ∷ []), k, a, b)
]

reuse_or_insert-IsSingle :
    (trim : String → String) (now p u : ℕ) (reason : String) (db : AccessDb)
    (o : Option ProjectAccessRequest)
    → first (is_open p u) db.requests ≡ o
    → IsSingle db.requests
    → IsSingle (reuse_or_insert trim now p u reason db o).1.requests
unfolding reuse_or_insert
reuse_or_insert-IsSingle trim now p u reason db none f h q v =
    let r : ProjectAccessRequest = record {
      id = db.next_id;
      project_id = p;
      user_id = u;
      reason = reason;
      status = RequestStatus.pending;
      requested_at = now;
      decided_at = none;
      decided_by = none;
    } in
    insert-count p u q v r db.requests refl refl (count_of_first (is_open p u) db.requests f)
      (h q v)
reuse_or_insert-IsSingle trim now p u reason db (some old) f h q v =
    elim (Bool-cases (str_eq (trim reason) "")) [
      | inl e ↦ rw e (h q v)
      | inr e ↦ rw e (
          omega (
            arith,
            h q v,
            count-update-le (is_open q v) (λ r. r.id == old.id)
                (λ r. record r { reason = reason; requested_at = now }) db.requests (λ x k. k),
          ))
    ]

create_for_row-IsSingle :
    (trim : String → String) (now p u : ℕ) (reason : String) (db : AccessDb) (o : Option ProjectRow)
    → IsSingle db.requests
    → IsSingle (create_for_row trim now p u reason db o).1.requests
unfolding create_for_row
create_for_row-IsSingle trim now p u reason db none h = h
create_for_row-IsSingle trim now p u reason db (some row) h =
    elim (Bool-cases (row.owner_id == u)) [
      | inl e ↦ rw e h
      | inr e ↦
          rw e (
            reuse_or_insert-IsSingle trim now p u reason db (first (is_open p u) db.requests) refl
              h)
    ]

create-IsSingle :
    (trim : String → String) (now p u : ℕ) (reason : String) (db : AccessDb)
    → IsSingle db.requests
    → IsSingle (create_access_request trim now p u reason db).1.requests
unfolding create_access_request
create-IsSingle trim now p u reason db h = elim (Bool-cases (is_listed p u db)) [
  | inl e ↦ rw e h
  | inr e ↦ rw e (create_for_row-IsSingle trim now p u reason db (get_row p db) h)
]

add-requests :
    (now p u by : ℕ) (db : AccessDb)
    → (add_project_access_user now p u by db).requests ≡ db.requests
unfolding add_project_access_user
add-requests now p u by db = elim (Bool-cases (is_listed p u db)) [
  | inl e ↦ rw e refl
  | inr e ↦ rw e refl
]

closed : (d : Decision) → is_pending (status_of d) ≡ false
closed approve = refl
closed deny = refl

mark-IsSingle :
    (d : Decision) (now by n : ℕ) (rs : List ProjectAccessRequest)
    → IsSingle rs
    → IsSingle (
        update
          (λ x. x.id == n)
          (λ x. record x { status = status_of d; decided_at = some now; decided_by = some by })
          rs)
mark-IsSingle d now by n rs h q v = omega (
  arith,
  h q v,
  count-update-le (is_open q v) (λ x. x.id == n)
      (λ x. record x { status = status_of d; decided_at = some now; decided_by = some by }) rs
      (λ x k. ground (arith, closed d, k)),
)

settle-IsSingle :
    (d : Decision) (now by : ℕ) (r : ProjectAccessRequest) (db : AccessDb)
    → IsSingle db.requests
    → IsSingle (settle_request d now by r db).requests
unfolding settle_request grant
settle-IsSingle deny now by r db h = mark-IsSingle deny now by r.id db.requests h
settle-IsSingle approve now by r db h =
    subst IsSingle (sym (add-requests now r.project_id r.user_id by _))
      (mark-IsSingle approve now by r.id db.requests h)

decide_row-IsSingle :
    (d : Decision) (now by : ℕ) (o : Option ProjectAccessRequest) (db : AccessDb)
    → IsSingle db.requests
    → IsSingle (decide_row d now by o db).requests
unfolding decide_row
decide_row-IsSingle d now by none db h = h
decide_row-IsSingle d now by (some r) db h = elim (Bool-cases (is_pending r.status)) [
  | inl e ↦ rw e (settle-IsSingle d now by r db h)
  | inr e ↦ rw e h
]

handle_for_row-IsSingle :
    (d : Decision) (now n : ℕ) (caller : UserRow) (db : AccessDb) (o : Option ProjectRow)
    → IsSingle db.requests
    → IsSingle (handle_for_row d now caller n db o).1.requests
unfolding handle_for_row decide_access_request
handle_for_row-IsSingle d now n caller db none h = h
handle_for_row-IsSingle d now n caller db (some p) h = elim (Bool-cases (may_manage caller p)) [
  | inl e ↦ rw e (decide_row-IsSingle d now caller.id (get_access_request n db) db h)
  | inr e ↦ rw e h
]

handle_existing-IsSingle :
    (d : Decision) (now n : ℕ) (caller : UserRow) (db : AccessDb) (o : Option ProjectAccessRequest)
    → IsSingle db.requests
    → IsSingle (handle_existing d now caller n db o).1.requests
unfolding handle_existing
handle_existing-IsSingle d now n caller db none h = h
handle_existing-IsSingle d now n caller db (some r) h =
    handle_for_row-IsSingle d now n caller db (get_row r.project_id db) h

-- Requests, decisions and changes of the allow-lists, in any order, keep it so that no user has two
-- pending requests for one project.
pub Step-IsSingle : (db db' : AccessDb) → Step db db' → IsSingle db.requests → IsSingle db'.requests
unfolding handle_decide remove_project_access_user
Step-IsSingle _ _ (creates trim now p u reason db) h = create-IsSingle trim now p u reason db h
Step-IsSingle _ _ (decides d now n caller db) h =
    handle_existing-IsSingle d now n caller db (get_access_request n db) h
Step-IsSingle _ _ (adds now p u by db) h = subst IsSingle (sym (add-requests now p u by db)) h
Step-IsSingle _ _ (removes p u db) h = h
