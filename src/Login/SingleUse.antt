-- ===== src/Login/SingleUse.antt =====
-- A login token that a poll has used up.
use muvee.Prelude.{
  ℕ, Bool, true, false, not, ◌&&◌, Option, none, some, List, [], ◌∷◌, ◌≡◌, refl, ap, ◌∙◌, arith,
  any, update, ltb, Bool-cases, inl, inr,
}
use muvee.Text.{Text, same_text}
use muvee.Login.{
  TokenStatus, LoginTokenEntry, Tokens, is_token, load, delete, store, ProjectLookup, lookup_failed,
  no_project, project, create_for, PollAnswer, token_required, expired, waiting, signed_in, failed,
  poll_status, poll_entry, begin_poll, mark_login_token_error, complete, begin_entry,
  begin_callback, Exchange, missing_code, authentication_failed, identity_sync_failed, identified,
  finish_callback, Event, creates, looks, answers, begins, finishes, collects, step, run,
}

abbrev pub is_known : Text → Tokens → Bool
is_known token = any (is_token token)

-- The answer ends the polling.
abbrev pub is_final : PollAnswer → Bool
is_final (signed_in who) = true
is_final (failed msg) = true
is_final expired = true
is_final waiting = false
is_final token_required = false

-- No event makes the token once more.
abbrev pub makes : Text → Event → Bool
makes token (creates now other provider lookup) = same_text token other
makes token _ = false

abbrev pub never_makes : Text → List Event → Bool
never_makes token [] = true
never_makes token (e ∷ es) = not (makes token e) && never_makes token es

known-delete : (t : Text) (m : Tokens) → is_known t (delete t m) ≡ false
unfolding delete
known-delete t [] = refl
known-delete t (e ∷ m) = ground (arith, known-delete t m)

unknown-delete : (t u : Text) (m : Tokens) → is_known t m ≡ false → is_known t (delete u m) ≡ false
unfolding delete
unknown-delete t u [] h = refl
unknown-delete t u (e ∷ m) h = ground (arith, unknown-delete t u m)

unknown-update :
    (t u : Text) (f : LoginTokenEntry → LoginTokenEntry) (m : Tokens)
    → ((e : LoginTokenEntry) → (f e).token ≡ e.token)
    → is_known t (update (is_token u) f m) ≡ is_known t m
unknown-update t u f [] k = refl
unknown-update t u f (e ∷ m) k = ground (arith, unknown-update t u f m k, ap (same_text t) (k e))

unknown-load : (t : Text) (m : Tokens) → is_known t m ≡ false → load t m ≡ none
unfolding load
unknown-load t [] h = refl
unknown-load t (e ∷ m) h = ground (arith, unknown-load t m)

load-unknown : (t : Text) (m : Tokens) → load t m ≡ none → is_known t m ≡ false
unfolding load
load-unknown t [] h = refl
load-unknown t (e ∷ m) h = ground (arith, load-unknown t m)

create_for-unknown :
    (now : ℕ) (t token provider : Text) (l : ProjectLookup) (m : Tokens)
    → same_text t token ≡ false
    → is_known t m ≡ false
    → is_known t (create_for now token provider l m).1 ≡ false
unfolding create_for store
create_for-unknown now t token provider lookup_failed m n h = h
create_for-unknown now t token provider no_project m n h = h
create_for-unknown now t token provider (project id enabled) m n h =
    ground (arith, unknown-delete t token m h)

poll_status-unknown :
    (k : TokenStatus) (e : LoginTokenEntry) (t u : Text) (m : Tokens)
    → is_known t m ≡ false
    → is_known t (poll_status k e u m).1 ≡ false
unfolding poll_status
poll_status-unknown TokenStatus.pending e t u m h = h
poll_status-unknown TokenStatus.success e t u m h = unknown-delete t u m h
poll_status-unknown TokenStatus.error e t u m h = unknown-delete t u m h

poll_entry-unknown :
    (now : ℕ) (t u : Text) (o : Option LoginTokenEntry) (m : Tokens)
    → is_known t m ≡ false
    → is_known t (poll_entry now u o m).1 ≡ false
unfolding poll_entry
poll_entry-unknown now t u none m h = h
poll_entry-unknown now t u (some e) m h = elim (Bool-cases (ltb e.expires_at now)) [
  | inl k ↦ rw k (unknown-delete t u m h)
  | inr k ↦ rw k (poll_status-unknown e.status e t u m h)
]

begin_entry-unknown :
    (now : ℕ) (t u : Text) (o : Option LoginTokenEntry) (m : Tokens)
    → is_known t m ≡ false
    → is_known t (begin_entry now u o m).1 ≡ false
unfolding begin_entry
begin_entry-unknown now t u none m h = h
begin_entry-unknown now t u (some e) m h = ground (arith, unknown-delete t u m h)

finish-unknown :
    (t u : Text) (x : Exchange) (m : Tokens)
    → is_known t m ≡ false
    → is_known t (finish_callback u x m) ≡ false
unfolding finish_callback mark_login_token_error complete
finish-unknown t u missing_code m h = unknown-update t u _ m (λ e. refl) ∙ h
finish-unknown t u authentication_failed m h = unknown-update t u _ m (λ e. refl) ∙ h
finish-unknown t u identity_sync_failed m h = unknown-update t u _ m (λ e. refl) ∙ h
finish-unknown t u (identified who) m h = unknown-update t u _ m (λ e. refl) ∙ h

step-unknown :
    (t : Text) (e : Event) (m : Tokens)
    → makes t e ≡ false
    → is_known t m ≡ false
    → is_known t (step e m) ≡ false
unfolding step begin_callback begin_poll
step-unknown t (creates now token provider l) m n h =
    create_for-unknown now t token provider l m n h
step-unknown t (looks u) m n h = h
step-unknown t (answers now u o) m n h = poll_entry-unknown now t u o m h
step-unknown t (begins now u) m n h = begin_entry-unknown now t u (load u m) m h
step-unknown t (finishes u x) m n h = finish-unknown t u x m h
step-unknown t (collects u) m n h = unknown-delete t u m h

run-unknown :
    (t : Text) (es : List Event) (m : Tokens)
    → never_makes t es ≡ true
    → is_known t m ≡ false
    → is_known t (run es m) ≡ false
unfolding run
run-unknown t [] m n h = h
run-unknown t (e ∷ es) m n h =
    run-unknown t es (step e m) (ground arith) (step-unknown t e m (ground arith) h)

poll_status-final :
    (k : TokenStatus) (e : LoginTokenEntry) (t : Text) (m : Tokens)
    → is_final (poll_status k e t m).0 ≡ true
    → is_known t (poll_status k e t m).1 ≡ false
unfolding poll_status
poll_status-final TokenStatus.pending e t m h = cc h
poll_status-final TokenStatus.success e t m h = known-delete t m
poll_status-final TokenStatus.error e t m h = known-delete t m

poll_entry-final :
    (now : ℕ) (t : Text) (o : Option LoginTokenEntry) (m : Tokens)
    → (o ≡ none → is_known t m ≡ false)
    → is_final (poll_entry now t o m).0 ≡ true
    → is_known t (poll_entry now t o m).1 ≡ false
unfolding poll_entry
poll_entry-final now t none m l h = l refl
poll_entry-final now t (some e) m l h = elim (Bool-cases (ltb e.expires_at now)) [
  | inl k ↦ rw k (known-delete t m)
  | inr k ↦ rw k (poll_status-final e.status e t m (ground arith))
]

poll_entry-expired :
    (now : ℕ) (t : Text) (o : Option LoginTokenEntry) (m : Tokens)
    → o ≡ none
    → (poll_entry now t o m).0 ≡ expired
unfolding poll_entry
poll_entry-expired now t none m h = refl
poll_entry-expired now t (some e) m h = cc h

-- A poll looks its token up in the map `m` and answers, after the events `before`, with what the
-- entry then shows: that the user signed in, that it failed or that the token expired. Unless the
-- events in between make the same token once more, every poll that looks the token up later, after
-- the events `es`, says that it expired, at whatever time and with whatever map it answers.
pub poll-single_use :
    (now later : ℕ) (token : Text) (m m' : Tokens) (seen : Option LoginTokenEntry)
    (before es : List Event)
    → (seen ≡ none → (begin_poll token m).0 ≡ none)
    → never_makes token before ≡ true
    → never_makes token es ≡ true
    → let ended : PollAnswer × Tokens =
        poll_entry now token seen (run before (begin_poll token m).1) in
      is_final ended.0 ≡ true
      → (poll_entry later token (begin_poll token (run es ended.1)).0 m').0 ≡ expired
unfolding begin_poll
poll-single_use now later token m m' seen before es looked b n f =
    let at_end : Tokens = run before m in
    let used : is_known token (poll_entry now token seen at_end).1 ≡ false =
      poll_entry-final now token seen at_end
        (λ z. run-unknown token before m b (load-unknown token m (looked z))) f in
    poll_entry-expired later token _ m'
      (unknown-load token _ (run-unknown token es (poll_entry now token seen at_end).1 n used))
