-- ===== src/Account/Access.antt =====
-- That the access tokens which are issued are accepted: `issueTokenPair` of
-- services/tracking-gateway/internal/usecase/auth.go and `AuthMiddleware` of
-- services/tracking-gateway/internal/transport/http/middleware.go.
use Prim.Native.String.append
use wrany.Prelude.{
  ◌+◌, ◌<◌, ◌≡◌, refl, sym, ap, ◌∙◌, false, Option, none, some, String, Time, Uuid, Result, ok, err,
  concat, str_eq, arith,
}
use wrany.Action.{reached, Outcome, pure, then_with}
use wrany.Account.Tables.{AccountError, or_error}
use wrany.Account.Auth.{
  UserRepository, RefreshTokenRepository, Claims, TokenPair, AuthSetup, AuthWork, unix, claims_of,
  save_token, draw_token, issue_token_pair,
}
use wrany.Account.Http.{Verifier, cut_prefix, parse_jwt, authenticate, auth_middleware}

pub cut_prefix-concat : (p s : String) → cut_prefix (concat p s) p ≡ some s
cut_prefix-concat String.[] s = ap (λ t. cut_prefix t String.[]) (append.nil s)
cut_prefix-concat (String.◌∷◌ c p) s =
    ap (λ t. cut_prefix t (String.◌∷◌ c p)) (append.cons c p s)
    ∙ ground (arith, cut_prefix-concat p s)

-- JWT verifies what it signed until it expires, no token is empty, and the text of a uuid is read back.
pub record Verifies (set : AuthSetup) (verifier : Verifier) : Type 0 where
  pub verified :
      (claims : Claims) (now : Time) (token : String)
      → set.signed claims ≡ some token
      → unix now < claims.exp
      → verifier.verified now token ≡ some claims
  pub full :
      (claims : Claims) (token : String) → set.signed claims ≡ some token → str_eq token "" ≡ false
  pub uuid : (id : Uuid) → verifier.parse_uuid (set.text id) ≡ some id

module _ {S : Type 0} (users : UserRepository S) (tokens : RefreshTokenRepository S)
    (set : AuthSetup) where
  -- The pair has the access token.
  abbrev Has : String → TokenPair → AuthWork S → Type 0
  Has access pair work = pair.access_token ≡ access

  stored-Has :
      (access raw : String) (r : Result AccountError (Unit {0}) × AuthWork S)
      → Outcome
          (λ _. Unit)
          (Has access)
          (then_with r λ _. pure (record { access_token = access; refresh_token = raw }))
  stored-Has access raw (err e, work) = tt
  stored-Has access raw (ok u, work) = refl

  drawn-Has :
      (user_id : Uuid) (now : Time) (access : String) (r : Result AccountError String × AuthWork S)
      → Outcome
          (λ _. Unit)
          (Has access)
          (then_with r λ raw. save_token users tokens set user_id now access raw)
  unfolding save_token
  drawn-Has user_id now access (err e, work) = tt
  drawn-Has user_id now access (ok raw, work) = stored-Has access raw _

  signed-Has :
      (user_id : Uuid) (now : Time) (token : Option String) (work : AuthWork S) (pair : TokenPair)
      → (then_with
          (or_error token AccountError.internal, work)
          λ access. draw_token users tokens set user_id now access).0
        ≡ ok pair
      → token ≡ some pair.access_token
  unfolding draw_token
  signed-Has user_id now none work pair e = cc
  signed-Has user_id now (some access) work pair e =
      ap some (sym (reached (Has access) _ pair (drawn-Has user_id now access _) e))

  issued-signed :
      (user_id : Uuid) (work : AuthWork S) (pair : TokenPair)
      → (issue_token_pair users tokens set user_id work).0 ≡ ok pair
      → set.signed (claims_of set user_id (set.clock work.readings)) ≡ some pair.access_token
  unfolding issue_token_pair
  issued-signed user_id work pair e =
      signed-Has user_id (set.clock work.readings)
        (set.signed (claims_of set user_id (set.clock work.readings))) _ pair e

  -- The access token of a pair that is issued for a user authenticates requests as that user, in the
  -- header, until it expires, if JWT verifies what it signed, no token is empty, and the texts of
  -- uuids are read back.
  pub issued_token_authenticates :
      (verifier : Verifier) (user_id : Uuid) (work : AuthWork S) (pair : TokenPair) (later : Time)
      (query : String)
      → Verifies set verifier
      → (issue_token_pair users tokens set user_id work).0 ≡ ok pair
      → unix later < unix (set.clock work.readings + set.access_ttl)
      → auth_middleware verifier later (record {
        authorization = concat "Bearer " pair.access_token;
        query_access_token = query;
      })
        ≡ some user_id
  unfolding authenticate parse_jwt
  issued_token_authenticates verifier user_id work pair later query verifies e valid =
      let claims = claims_of set user_id (set.clock work.readings) in
      let signed = issued-signed user_id work pair e in
      rw (
        cut_prefix-concat "Bearer " pair.access_token,
        verifies.full claims pair.access_token signed,
        verifies.verified claims later pair.access_token signed valid,
        verifies.uuid user_id,
      )
