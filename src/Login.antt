-- ===== src/Login.antt =====
-- cmd/muvee/login_token.go: the sign-ins that an SDK starts and polls. The map of login tokens is
-- the list of its entries, each with its token. A time is a number of nanoseconds.
pub mod SingleUse
pub mod Overlap
pub mod Provenance
pub mod State
use muvee.Prelude.{
  ℕ, ◌+◌, ◌*◌, Bool, true, false, not, Option, none, some, List, [], ◌∷◌, ◌++◌, ltb, String,
  if◌then◌else◌, first, select, update,
}
use muvee.Db.{minute}
use muvee.Text.{Text, codes, same_text, trim_space}
use muvee.Text.Words.{member}
use muvee.Domains.{clean}

pub data TokenStatus : Type 0 where
  pending success error : TokenStatus

pub record Identity : Type 0 where
  pub email : String
  pub user_id : String
  pub name : String
  pub avatar_url : String
  pub provider : Text

pub record LoginTokenEntry : Type 0 where
  pub token : Text
  pub provider : Text
  pub project_id : String
  pub status : TokenStatus
  pub message : String
  pub identity : Identity
  pub expires_at : ℕ

abbrev pub Tokens : Type 0
Tokens = List LoginTokenEntry

abbrev pub login_token_expiry : ℕ
login_token_expiry = 10 * minute

abbrev pub is_token : Text → LoginTokenEntry → Bool
is_token token e = same_text token e.token

-- loginTokens.Load, Delete and Store
unfoldable pub load : Text → Tokens → Option LoginTokenEntry
load token m = first (is_token token) m

unfoldable pub delete : Text → Tokens → Tokens
delete token m = select (λ e. not (is_token token e)) m

unfoldable pub store : LoginTokenEntry → Tokens → Tokens
unfolding delete
store e m = e ∷ delete e.token m

abbrev pub no_identity : Identity
no_identity = record { email = ""; user_id = ""; name = ""; avatar_url = ""; provider = [] }

-- What fetchProjectAuthConfigByHost finds: an error, no project, or the project's id and the
-- providers that its visitors may use.
pub data ProjectLookup : Type 0 where
  lookup_failed no_project : ProjectLookup
  project : String → List Text → ProjectLookup

pub data CreateAnswer : Type 0 where
  provider_required unknown_provider missing_host : CreateAnswer
  project_lookup_failed no_project_for_host provider_not_enabled : CreateAnswer
  created : Text → CreateAnswer

abbrev pub pending_entry : ℕ → Text → Text → String → LoginTokenEntry
pending_entry now token provider project_id = record {
  token = token;
  provider = provider;
  project_id = project_id;
  status = TokenStatus.pending;
  message = "";
  identity = no_identity;
  expires_at = now + login_token_expiry;
}

unfoldable pub create_for : ℕ → Text → Text → ProjectLookup → Tokens → CreateAnswer × Tokens
unfolding store
create_for now token provider lookup_failed m = (project_lookup_failed, m)
create_for now token provider no_project m = (no_project_for_host, m)
create_for now token provider (project id enabled) m =
    if member provider enabled
    then (created token, store (pending_entry now token provider id) m)
    else (provider_not_enabled, m)

-- handleLoginTokenCreate, with the token that is generated, the providers that are set up, and the
-- project of the host. The signing of the OAuth state is left out.
unfoldable pub handle_login_token_create :
    (to_lower : ℕ → ℕ)
    → ℕ
    → Text
    → List Text
    → (Text → ProjectLookup)
    → Text
    → Text
    → Tokens
    → CreateAnswer × Tokens
unfolding create_for clean
handle_login_token_create to_lower now token providers project_of host raw m =
    let provider : Text = clean to_lower raw in
    if same_text provider []
    then (provider_required, m)
    else if not (member provider providers)
    then (unknown_provider, m)
    else if same_text host []
    then (missing_host, m)
    else create_for now token provider (project_of host) m

pub data PollAnswer : Type 0 where
  token_required expired waiting : PollAnswer
  signed_in : Identity → PollAnswer
  failed : String → PollAnswer

-- The switch on the status of an entry that has not expired.
unfoldable pub poll_status : TokenStatus → LoginTokenEntry → Text → Tokens → PollAnswer × Tokens
unfolding delete
poll_status TokenStatus.success e token m = (signed_in e.identity, delete token m)
poll_status TokenStatus.error e token m = (failed e.message, delete token m)
poll_status TokenStatus.pending e token m = (waiting, m)

unfoldable pub poll_entry : ℕ → Text → Option LoginTokenEntry → Tokens → PollAnswer × Tokens
unfolding poll_status
poll_entry now token none m = (expired, m)
poll_entry now token (some e) m =
    if ltb e.expires_at now then (expired, delete token m) else poll_status e.status e token m

-- handleLoginTokenPoll is two stages, since other requests may come after it has loaded the entry.
-- The second, poll_entry, gets what the pointer to the entry shows it.
unfoldable pub begin_poll : Text → Tokens → Option LoginTokenEntry × Tokens
unfolding load
begin_poll token m = (load token m, m)

unfoldable pub handle_login_token_poll : ℕ → Text → Tokens → PollAnswer × Tokens
unfolding poll_entry begin_poll
handle_login_token_poll now raw m =
    let token : Text = trim_space raw in
    if same_text token []
    then (token_required, m)
    else let (entry, m') = begin_poll token m in poll_entry now token entry m'

unfoldable pub mark_login_token_error : Text → String → Tokens → Tokens
mark_login_token_error token msg =
    update (is_token token) (λ e. record e { status = TokenStatus.error; message = msg })

-- The end of handleLoginTokenCallback. It writes to the entry that it has loaded before; where that
-- one was deleted meanwhile, the map has no entry of the token, and nothing there changes.
unfoldable pub complete : Text → Identity → Tokens → Tokens
complete token who =
    update (is_token token) (λ e. record e { status = TokenStatus.success; identity = who })

-- The beginning of handleLoginTokenCallback: an expired entry is deleted, and the request gets an
-- error there.
unfoldable pub begin_entry : ℕ → Text → Option LoginTokenEntry → Tokens → Bool × Tokens
unfolding delete
begin_entry now token none m = (false, m)
begin_entry now token (some e) m =
    if ltb e.expires_at now then (false, delete token m) else (true, m)

unfoldable pub begin_callback : ℕ → Text → Tokens → Bool × Tokens
unfolding begin_entry load
begin_callback now token m = begin_entry now token (load token m) m

-- What the provider and muvee-server answer in a callback.
pub data Exchange : Type 0 where
  missing_code authentication_failed identity_sync_failed : Exchange
  identified : Identity → Exchange

unfoldable pub finish_callback : Text → Exchange → Tokens → Tokens
unfolding mark_login_token_error complete
finish_callback token missing_code = mark_login_token_error token "missing authorization code"
finish_callback token authentication_failed = mark_login_token_error token "authentication failed"
finish_callback token identity_sync_failed = mark_login_token_error token "identity sync failed"
finish_callback token (identified who) = complete token who

-- The requests and the collector, in any order. A callback is two events, since other requests may
-- come while it talks to the provider, and so is a poll: `looks` is its first stage, and `answers`
-- its second, with whatever entry it sees. `collects` is the removal that a creation has scheduled.
pub data Event : Type 0 where
  creates : ℕ → Text → Text → ProjectLookup → Event
  looks : Text → Event
  answers : ℕ → Text → Option LoginTokenEntry → Event
  begins : ℕ → Text → Event
  finishes : Text → Exchange → Event
  collects : Text → Event

unfoldable pub step : Event → Tokens → Tokens
unfolding create_for begin_poll poll_entry begin_callback finish_callback delete
step (creates now token provider lookup) m = (create_for now token provider lookup m).1
step (looks token) m = (begin_poll token m).1
step (answers now token entry) m = (poll_entry now token entry m).1
step (begins now token) m = (begin_callback now token m).1
step (finishes token x) m = finish_callback token x m
step (collects token) m = delete token m

unfoldable pub run : List Event → Tokens → Tokens
unfolding step
run [] m = m
run (e ∷ es) m = run es (step e m)
