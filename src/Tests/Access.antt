-- ===== src/Tests/Access.antt =====
-- A request with an access token that was issued.
use mathlib.Core.Path.{subst}
use wrany.Prelude.{
  IfSome, if-elim, ◌≡◌, refl, ap, sym, Bool, Bool-cases, true, false, ◌&&◌, none, some, inl, inr,
  ok, concat, str_eq, ◌==◌, if◌then◌else◌, seconds, arith, eq_iff,
}
use wrany.Account.Tables.{insert, statement}
use wrany.Account.Tokens
use wrany.Account.Auth.{
  Claims, TokenPair, AuthSetup, user_repo, token_repo, issue_token_pair, draw_token, save_token,
}
use wrany.Account.Http.{Verifier, auth_middleware, ws_auth_middleware, authenticate, parse_jwt}
use wrany.Account.Access.{Verifies, issued_token_authenticates}
use wrany.Tests.Query.{tally, count, count-tally}
use wrany.Tests.Account.{setup, start}

-- The claims of the user 7 at the time 3200.
abbrev claims : Claims
claims = record { sub = "aaaaaaa"; iat = 3_200; exp = 4_100 }

abbrev are_claims : Claims → Bool
are_claims c = str_eq c.sub "aaaaaaa" && c.iat == 3_200 && c.exp == 4_100

-- It signs these claims alone.
abbrev signs : AuthSetup
signs = record setup {
  text = tally;
  clock = λ n. seconds 62_135_600_000;
  signed = λ c. if are_claims c then some "token" else none;
}

abbrev verifier : Verifier
verifier = record { verified = λ now token. some claims; parse_uuid = λ s. some (count s) }

are_claims-same : (c : Claims) → are_claims c ≡ true → c ≡ claims
are_claims-same c h =
    let sub : c.sub ≡ "aaaaaaa" = (eq_iff c.sub "aaaaaaa").0 (ground arith) in
    let iat : c.iat ≡ 3_200 = ground arith in
    let exp : c.exp ≡ 4_100 = ground arith in λ i. record { sub = sub i; iat = iat i; exp = exp i }

verifier-Verifies : Verifies signs verifier
verifier-Verifies = record {
  verified = λ c now token h valid. elim (Bool-cases (are_claims c)) [
    | inl e ↦ ap some (sym (are_claims-same c e))
    | inr e ↦ absurd (ground arith)
  ];
  full = λ c token h.
      subst (λ o. IfSome (λ t. str_eq t "" ≡ false) o) h
        (if-elim (λ o. IfSome (λ t. str_eq t "" ≡ false) o) (are_claims c) (some "token") none
          (λ _. refl) (λ _. tt));
  uuid = λ id. ap some (count-tally id);
}

abbrev pair : TokenPair
pair = record { access_token = "token"; refresh_token = "r" }

issued : (issue_token_pair user_repo token_repo signs 7 start).0 ≡ ok pair
unfolding issue_token_pair draw_token save_token Tokens.save insert statement
issued = refl

issued_token_authenticates_example :
    auth_middleware verifier
      (seconds 62_135_600_800)
      (record { authorization = concat "Bearer " "token"; query_access_token = "" })
    ≡ some 7
issued_token_authenticates_example =
    issued_token_authenticates user_repo token_repo signs verifier 7 start pair
      (seconds 62_135_600_800) "" verifier-Verifies issued (omega arith)

-- A request to the tracker's endpoint with the token in its query, and one without a token.
in_query :
    ws_auth_middleware verifier
      (seconds 62_135_600_800)
      (record { authorization = ""; query_access_token = "token" })
    ≡ some 7
unfolding authenticate parse_jwt
in_query = refl

without_token :
    auth_middleware verifier 0 (record { authorization = "Basic x"; query_access_token = "token" })
    ≡ none
unfolding authenticate
without_token = refl
