-- ===== src/Examples/States.antt =====
-- The theorem on signed states, applied with a codec that writes lengths before the texts and lifts
-- every code point over the full stop.
use mathlib.Core.Path.{◌≡◌}
use muvee.Prelude.{
  ℕ, ◌+◌, ◌-◌, refl, ap, true, Option, none, some, [], ◌∷◌, ◌++◌, arith, map, length, take, drop,
}
use muvee.Text.{Text, codes}
use muvee.Text.Affixes.{lacks}
use muvee.Login.State.{
  StateClaims, Codec, IsCodec, verify_state, sign_state, verified, fill_claims, verify-sign,
}

abbrev plain_marshal : StateClaims → Text
plain_marshal s =
    s.issued_at ∷ length s.mode ∷ length s.login_token ∷ s.mode ++ (s.login_token ++ s.nonce)

abbrev plain_unmarshal : Text → Option StateClaims
plain_unmarshal (i ∷ m ∷ l ∷ rest) = some (record {
  mode = take m rest;
  login_token = take l (drop m rest);
  nonce = drop l (drop m rest);
  issued_at = i;
})
plain_unmarshal _ = none

abbrev lift : Text → Text
lift = map (λ c. c + 100)

abbrev lower : Text → Text
lower = map (λ c. c - 100)

abbrev plain : Codec
plain = record {
  marshal = plain_marshal;
  unmarshal = plain_unmarshal;
  encode = lift;
  decode = λ t. some (lower t);
  signature = λ t. length t ∷ [];
}

take-length : (a b : Text) → take (length a) (a ++ b) ≡ a
take-length [] b = refl
take-length (c ∷ cs) b = ap (◌∷◌ c) (take-length cs b)

drop-length : (a b : Text) → drop (length a) (a ++ b) ≡ b
drop-length [] b = refl
drop-length (c ∷ cs) b = drop-length cs b

back : (c : ℕ) → c + 100 - 100 ≡ c
back c = omega arith

lower-lift : (t : Text) → lower (lift t) ≡ t
lower-lift [] = refl
lower-lift (c ∷ cs) = cc (lower-lift cs, back c)

lift-lacks : (t : Text) → lacks b'.' (lift t) ≡ true
lift-lacks [] = refl
lift-lacks (c ∷ cs) = ground (arith, lift-lacks cs)

plain_round : (s : StateClaims) → plain_unmarshal (plain_marshal s) ≡ some s
plain_round s =
    rw
      (
        take-length s.mode (s.login_token ++ s.nonce),
        drop-length s.mode (s.login_token ++ s.nonce),
        take-length s.login_token s.nonce,
        drop-length s.login_token s.nonce,
      )
      refl

plain-IsCodec : IsCodec plain
plain-IsCodec = record {
  unmarshal-marshal = plain_round;
  decode-encode = λ t. ap some (lower-lift t);
  encode-lacks = lift-lacks;
}

abbrev claims : StateClaims
claims = record { mode = codes "login-token"; login_token = codes "tok"; nonce = []; issued_at = 0 }

verify-sign_example :
    verify_state plain 1600 (sign_state plain (codes "n") 1000 claims)
    ≡ verified (fill_claims (codes "n") 1000 claims)
unfolding fill_claims
verify-sign_example = verify-sign plain (codes "n") 1000 1600 claims plain-IsCodec
