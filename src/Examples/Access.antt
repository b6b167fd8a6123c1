-- ===== src/Examples/Access.antt =====
-- The theorems on access requests, applied to a private project with one pending request.
use muvee.Prelude.{◌≡◌, refl, true, false, ◌&&◌, ◌||◌, none, [], ◌∷◌, arith}
use muvee.Db.{UserRole}
use muvee.Access.{
  AccessMode, ProjectRow, UserRow, ProjectAccessRequest, RequestStatus, AccessDb, approve, deny,
  handle_decide, get_access_request, is_listed, may_manage, project_access_for_user,
}
use muvee.Access.Grants.{handle_decide-listed, is_granted, approved-allowed}
use muvee.Access.Requests.{IsSingle, decides, Step-IsSingle}

abbrev ann : UserRow
ann = record { id = 3; email = "ann@example.org"; role = UserRole.member }

abbrev bob : UserRow
bob = record { id = 4; email = "bob@example.org"; role = UserRole.member }

abbrev private_web : ProjectRow
private_web = record { id = 7; owner_id = 3; access_mode = AccessMode.private }

abbrev asks : ProjectAccessRequest
asks = record {
  id = 1;
  project_id = 7;
  user_id = 4;
  reason = "please";
  status = RequestStatus.pending;
  requested_at = 0;
  decided_at = none;
  decided_by = none;
}

abbrev inbox : AccessDb
inbox = record {
  projects = private_web ∷ [];
  users = ann ∷ bob ∷ [];
  access_users = [];
  requests = asks ∷ [];
  next_id = 2;
}

handle_decide-listed_example :
    (is_listed 7 4 (handle_decide approve 9 ann 1 inbox).1
      ≡ is_listed 7 4 inbox || (may_manage ann private_web && is_granted approve asks 7 4))
    × (may_manage ann private_web ≡ false → (handle_decide approve 9 ann 1 inbox).1 ≡ inbox)
unfolding get_access_request
handle_decide-listed_example =
    handle_decide-listed approve 9 1 7 4 ann asks private_web inbox refl refl

approved-allowed_example :
    project_access_for_user 4 UserRole.member 7 (handle_decide approve 9 ann 1 inbox).1 ≡ true
unfolding get_access_request
approved-allowed_example =
    approved-allowed 9 1 ann UserRole.member asks private_web inbox refl refl refl refl

Step-IsSingle_example : IsSingle (handle_decide deny 9 ann 1 inbox).1.requests
Step-IsSingle_example =
    Step-IsSingle inbox (handle_decide deny 9 ann 1 inbox).1 (decides deny 9 1 ann inbox)
      (λ p u. ground arith)
