-- ===== src/Login/State.antt =====
-- cmd/muvee/oauth_state.go: the claims that travel through a provider in the signed state. JSON,
-- base64 and the HMAC with the server's secret are the fields of `Codec`. A time is in seconds.
use muvee.Prelude.{
  ℕ, ◌+◌, ◌*◌, ◌≡◌, refl, sym, ap, true, Option, none, some, [], ◌∷◌, ◌++◌, ◌==◌, ltb,
  if◌then◌else◌, Bool-cases, inl, inr, arith,
}
use muvee.Text.{Text, same_text}
use muvee.Text.Affixes.{
  same_text_refl, eq_of_same_text, lacks, split_first-append, split_first-parts,
}
use muvee.Text.Words.{split_first}

pub record StateClaims : Type 0 where
  pub mode : Text
  pub login_token : Text
  pub nonce : Text
  pub issued_at : ℕ

pub record Codec : Type 0 where
  pub marshal : StateClaims → Text
  pub unmarshal : Text → Option StateClaims
  pub encode : Text → Text
  pub decode : Text → Option Text
  pub signature : Text → Text

-- What the libraries promise: what was encoded is decoded, and the encoding has no full stop.
pub record IsCodec (c : Codec) : Type 0 where
  pub unmarshal-marshal : (s : StateClaims) → c.unmarshal (c.marshal s) ≡ some s
  pub decode-encode : (t : Text) → c.decode (c.encode t) ≡ some t
  pub encode-lacks : (t : Text) → lacks b'.' (c.encode t) ≡ true

abbrev pub state_max_age : ℕ
state_max_age = 10 * 60

pub data VerifyAnswer : Type 0 where
  malformed invalid_signature undecodable expired : VerifyAnswer
  verified : StateClaims → VerifyAnswer

unfoldable pub fill_claims : Text → ℕ → StateClaims → StateClaims
fill_claims nonce now s = record s {
  nonce = if same_text s.nonce [] then nonce else s.nonce;
  issued_at = if s.issued_at == 0 then now else s.issued_at;
}

module _ (c : Codec) where
  unfoldable pub sign_state : Text → ℕ → StateClaims → Text
  unfolding fill_claims
  sign_state nonce now s =
      let p : Text = c.encode (c.marshal (fill_claims nonce now s)) in p ++ b'.' ∷ c.signature p

  unfoldable pub check_claims : ℕ → Option StateClaims → VerifyAnswer
  check_claims now none = undecodable
  check_claims now (some s) = if ltb (s.issued_at + state_max_age) now then expired else verified s

  unfoldable pub check_payload : ℕ → Option Text → VerifyAnswer
  unfolding check_claims
  check_payload now none = undecodable
  check_payload now (some raw) = check_claims now (c.unmarshal raw)

  unfoldable pub check_parts : ℕ → Option (Text × Text) → VerifyAnswer
  unfolding check_payload
  check_parts now none = malformed
  check_parts now (some (p, sig)) =
      if same_text (c.signature p) sig then check_payload now (c.decode p) else invalid_signature

  unfoldable pub verify_state : ℕ → Text → VerifyAnswer
  unfolding check_parts
  verify_state now state = check_parts now (split_first b'.' state)

  -- A state that was signed is verified with the claims that went in, the nonce and the time filled
  -- in where they were missing, until it is ten minutes old, and has expired after that. JSON and
  -- base64 are read as they were written, and base64 has no full stop.
  pub verify-sign :
      (nonce : Text) (now later : ℕ) (s : StateClaims)
      → IsCodec c
      → verify_state later (sign_state nonce now s) ≡ (
          if ltb ((fill_claims nonce now s).issued_at + state_max_age) later
          then expired
          else verified (fill_claims nonce now s))
  unfolding verify_state sign_state check_parts check_payload check_claims
  verify-sign nonce now later s k =
      let full : StateClaims = fill_claims nonce now s in
      let p : Text = c.encode (c.marshal full) in
      rw
        (
          split_first-append b'.' p (c.signature p) (k.encode-lacks (c.marshal full)),
          same_text_refl (c.signature p),
          k.decode-encode (c.marshal full),
          k.unmarshal-marshal full,
        )
        refl

  check_parts-signed :
      (now : ℕ) (o : Option (Text × Text)) (s : StateClaims)
      → check_parts now o ≡ verified s
      → (p : Text) × (o ≡ some (p, c.signature p))
  unfolding check_parts
  check_parts-signed now none s h = cc h
  check_parts-signed now (some (p, sig)) s h = elim (Bool-cases (same_text (c.signature p) sig)) [
    | inl e ↦ (p, ap (λ (t : Text). some (p, t)) (sym (eq_of_same_text (c.signature p) sig e)))
    | inr e ↦ ground arith
  ]

  -- A state that is verified is a payload with the payload's own signature behind it.
  pub verify-signed :
      (now : ℕ) (state : Text) (s : StateClaims)
      → verify_state now state ≡ verified s
      → (p : Text) × (state ≡ p ++ b'.' ∷ c.signature p)
  unfolding verify_state
  verify-signed now state s h =
      let (p, e) = check_parts-signed now (split_first b'.' state) s h in
      (p, split_first-parts b'.' state p (c.signature p) e)
