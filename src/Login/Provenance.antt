-- ===== src/Login/Provenance.antt =====
-- Where the identity that a poll hands out comes from.
use muvee.Prelude.{
  ℕ, true, not, Option, none, some, List, [], ◌∷◌, ◌≡◌, ◌⊎◌, refl, ap, ◌∙◌, sym, arith, String, ltb,
  Bool-cases, inl, inr, All,
}
use muvee.Prelude.Keys.{All-update, All-select, All-weaken}
use mathlib.Core.Path.{subst}
use muvee.Text.Words.{member}
use muvee.Text.{Text, same_text, trim_space}
use muvee.Text.Affixes.{eq_of_same_text}
use muvee.Login.{
  TokenStatus, LoginTokenEntry, Identity, Tokens, is_token, load, delete, store, ProjectLookup,
  lookup_failed, no_project, project, create_for, signed_in, poll_status, poll_entry, begin_poll,
  handle_login_token_poll, mark_login_token_error, complete, begin_entry, begin_callback, Exchange,
  missing_code, authentication_failed, identity_sync_failed, identified, finish_callback, Event,
  creates, looks, answers, begins, finishes, collects, step, run,
}

-- Some callback that began with the token ended with the identity.
abbrev pub Identified : Text → Identity → List Event → Type 0
Identified token who [] = ⊥
Identified token who (e ∷ es) = (e ≡ finishes token (identified who)) ⊎ Identified token who es

-- An entry that tells of a success has an identity that was earned for its token.
abbrev IsEarned : (Text → Identity → Type 0) → LoginTokenEntry → Type 0
IsEarned W e = e.status ≡ TokenStatus.success → W e.token e.identity

abbrev Covers : (Text → Identity → Type 0) → Event → Type 0
Covers W e = (token : Text) (who : Identity) → e ≡ finishes token (identified who) → W token who

module _ (W : Text → Identity → Type 0) where
  delete-IsEarned : (t : Text) (m : Tokens) → All (IsEarned W) m → All (IsEarned W) (delete t m)
  unfolding delete
  delete-IsEarned t m h = All-select (IsEarned W) (λ e. not (is_token t e)) m h

  create_for-IsEarned :
      (now : ℕ) (token provider : Text) (l : ProjectLookup) (m : Tokens)
      → All (IsEarned W) m
      → All (IsEarned W) (create_for now token provider l m).1
  unfolding create_for store
  create_for-IsEarned now token provider lookup_failed m h = h
  create_for-IsEarned now token provider no_project m h = h
  create_for-IsEarned now token provider (project id enabled) m h =
      elim (Bool-cases (member provider enabled)) [
        | inl e ↦ rw e ((λ k. cc k), delete-IsEarned token m h)
        | inr e ↦ rw e h
      ]

  poll_status-IsEarned :
      (k : TokenStatus) (e : LoginTokenEntry) (u : Text) (m : Tokens)
      → All (IsEarned W) m
      → All (IsEarned W) (poll_status k e u m).1
  unfolding poll_status
  poll_status-IsEarned TokenStatus.pending e u m h = h
  poll_status-IsEarned TokenStatus.success e u m h = delete-IsEarned u m h
  poll_status-IsEarned TokenStatus.error e u m h = delete-IsEarned u m h

  poll_entry-IsEarned :
      (now : ℕ) (u : Text) (o : Option LoginTokenEntry) (m : Tokens)
      → All (IsEarned W) m
      → All (IsEarned W) (poll_entry now u o m).1
  unfolding poll_entry
  poll_entry-IsEarned now u none m h = h
  poll_entry-IsEarned now u (some e) m h = elim (Bool-cases (ltb e.expires_at now)) [
    | inl k ↦ rw k (delete-IsEarned u m h)
    | inr k ↦ rw k (poll_status-IsEarned e.status e u m h)
  ]

  begin_entry-IsEarned :
      (now : ℕ) (u : Text) (o : Option LoginTokenEntry) (m : Tokens)
      → All (IsEarned W) m
      → All (IsEarned W) (begin_entry now u o m).1
  unfolding begin_entry
  begin_entry-IsEarned now u none m h = h
  begin_entry-IsEarned now u (some e) m h = elim (Bool-cases (ltb e.expires_at now)) [
    | inl k ↦ rw k (delete-IsEarned u m h)
    | inr k ↦ rw k h
  ]

  error-IsEarned :
      (u : Text) (msg : String) (m : Tokens)
      → All (IsEarned W) m
      → All (IsEarned W) (mark_login_token_error u msg m)
  unfolding mark_login_token_error
  error-IsEarned u msg m h =
      All-update (IsEarned W) (is_token u)
        (λ e. record e { status = TokenStatus.error; message = msg }) m (λ e _ _ k. cc k) h

  finish-IsEarned :
      (u : Text) (x : Exchange) (m : Tokens)
      → Covers W (finishes u x)
      → All (IsEarned W) m
      → All (IsEarned W) (finish_callback u x m)
  unfolding finish_callback complete
  finish-IsEarned u missing_code m c h = error-IsEarned u "missing authorization code" m h
  finish-IsEarned u authentication_failed m c h = error-IsEarned u "authentication failed" m h
  finish-IsEarned u identity_sync_failed m c h = error-IsEarned u "identity sync failed" m h
  finish-IsEarned u (identified who) m c h =
      All-update (IsEarned W) (is_token u)
        (λ e. record e { status = TokenStatus.success; identity = who }) m
        (λ e t _ _. subst (λ v. W v who) (eq_of_same_text u e.token t) (c u who refl)) h

  step-IsEarned :
      (e : Event) (m : Tokens) → Covers W e → All (IsEarned W) m → All (IsEarned W) (step e m)
  unfolding step begin_callback begin_poll
  step-IsEarned (creates now token provider l) m c h = create_for-IsEarned now token provider l m h
  step-IsEarned (looks token) m c h = h
  step-IsEarned (answers now token o) m c h = poll_entry-IsEarned now token o m h
  step-IsEarned (begins now u) m c h = begin_entry-IsEarned now u (load u m) m h
  step-IsEarned (finishes u x) m c h = finish-IsEarned u x m c h
  step-IsEarned (collects u) m c h = delete-IsEarned u m h

  run-IsEarned :
      (es : List Event) (m : Tokens)
      → All (Covers W) es
      → All (IsEarned W) m
      → All (IsEarned W) (run es m)
  unfolding run
  run-IsEarned [] m c h = h
  run-IsEarned (e ∷ es) m c h = run-IsEarned es (step e m) c.1 (step-IsEarned e m c.0 h)

covers : (es : List Event) → All (Covers (λ t w. Identified t w es)) es
covers [] = tt
covers (e ∷ es) = (
  λ t w k. inl k,
  All-weaken (Covers (λ t w. Identified t w es)) (Covers (λ t w. Identified t w (e ∷ es))) es
      (λ x c t w k. inr (c t w k)) (covers es),
)

-- What a search by the token finds.
load-holds :
    (P : LoginTokenEntry → Type 0) (u : Text) (m : Tokens) (e : LoginTokenEntry)
    → All P m
    → load u m ≡ some e
    → (is_token u e ≡ true) × P e
unfolding load
load-holds P u [] e h k = cc k
load-holds P u (x ∷ m) e h k = elim (Bool-cases (is_token u x)) [
  | inl t ↦ let same : x ≡ e = ground arith in (ap (is_token u) (sym same) ∙ t, subst P same h.0)
  | inr t ↦ load-holds P u m e h.1 (ground arith)
]

poll_status-signed :
    (k : TokenStatus) (e : LoginTokenEntry) (u : Text) (m : Tokens) (who : Identity)
    → (poll_status k e u m).0 ≡ signed_in who
    → (k ≡ TokenStatus.success) × (e.identity ≡ who)
unfolding poll_status
poll_status-signed TokenStatus.pending e u m who h = cc h
poll_status-signed TokenStatus.success e u m who h = (refl, ground arith)
poll_status-signed TokenStatus.error e u m who h = cc h

poll_entry-signed :
    (W : Text → Identity → Type 0) (now : ℕ) (u : Text) (o : Option LoginTokenEntry) (m : Tokens)
    (who : Identity)
    → All (IsEarned W) m
    → load u m ≡ o
    → (poll_entry now u o m).0 ≡ signed_in who
    → W u who
unfolding poll_entry
poll_entry-signed W now u none m who h l k = cc k
poll_entry-signed W now u (some e) m who h l k = elim (Bool-cases (ltb e.expires_at now)) [
  | inl t ↦ ground arith
  | inr t ↦
      let (done, same) = poll_status-signed e.status e u m who (ground arith) in
      let (found, earned) = load-holds (IsEarned W) u m e h l in
      subst (λ v. W v who) (sym (eq_of_same_text u e.token found))
        (subst (W e.token) same (earned done))
]

-- From an empty map, whatever requests come and in whatever order: the identity that a poll of a
-- token hands out is one with which a callback for that token ended.
pub poll-Identified :
    (es : List Event) (now : ℕ) (raw : Text) (who : Identity)
    → (handle_login_token_poll now raw (run es [])).0 ≡ signed_in who
    → Identified (trim_space raw) who es
unfolding handle_login_token_poll begin_poll
poll-Identified es now raw who k = elim (Bool-cases (same_text (trim_space raw) [])) [
  | inl t ↦ ground arith
  | inr t ↦
      poll_entry-signed (λ t w. Identified t w es) now (trim_space raw)
        (load (trim_space raw) (run es [])) (run es []) who
        (run-IsEarned (λ t w. Identified t w es) es [] (covers es) tt) refl (ground arith)
]
