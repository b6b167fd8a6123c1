-- ===== src/Examples/Logins.antt =====
-- The theorems on login tokens and signed states, applied to one sign-in.
use mathlib.Core.Path.{◌≡◌}
use muvee.Prelude.{refl, ◌+◌, Option, List, [], ◌∷◌}
use muvee.Text.{codes}
use muvee.Login.{
  TokenStatus, login_token_expiry, Identity, Event, creates, begins, finishes, looks, project,
  identified, run, step, handle_login_token_poll, signed_in, expired, Tokens, LoginTokenEntry, load,
  begin_poll, poll_entry,
}
use muvee.Login.SingleUse.{poll-single_use}
use muvee.Login.Provenance.{Identified, poll-Identified}
use muvee.Examples.{noon}

abbrev ann : Identity
ann = record {
  email = "ann@example.org";
  user_id = "3";
  name = "Ann";
  avatar_url = "";
  provider = codes "google";
}

-- A token is made, and its callback ends with Ann's identity.
abbrev sign_in : List Event
sign_in =
    creates noon (codes "tok") (codes "google") (project "7" (codes "google" ∷ []))
    ∷ begins noon (codes "tok")
    ∷ finishes (codes "tok") (identified ann)
    ∷ []

sign_in-poll : (handle_login_token_poll noon (codes "tok") (run sign_in [])).0 ≡ signed_in ann
unfolding run step handle_login_token_poll
sign_in-poll = refl

poll-Identified_example : Identified (codes "tok") ann sign_in
poll-Identified_example = poll-Identified sign_in noon (codes "tok") ann sign_in-poll

abbrev signed : Tokens
signed = run sign_in []

abbrev by_ann : Option LoginTokenEntry
by_ann = load (codes "tok") signed

poll-single_use_example :
    (poll_entry noon
      (codes "tok")
      (begin_poll (codes "tok") (
        run
          (looks (codes "tok") ∷ [])
          (poll_entry noon (codes "tok") by_ann (run (looks (codes "tok") ∷ []) signed)).1)).0
      signed).0
    ≡ expired
unfolding run step poll_entry begin_poll load
poll-single_use_example =
    poll-single_use noon noon (codes "tok") signed signed by_ann (looks (codes "tok") ∷ [])
      (looks (codes "tok") ∷ []) (λ e. e) refl refl refl

abbrev ann_entry : LoginTokenEntry
ann_entry = record {
  token = codes "tok";
  provider = codes "google";
  project_id = "7";
  status = TokenStatus.success;
  message = "";
  identity = ann;
  expires_at = noon + login_token_expiry;
}
