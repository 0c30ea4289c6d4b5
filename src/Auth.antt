-- ===== src/Auth.antt =====
-- auth.go: the bearer token. `strings.EqualFold` folds ASCII letters: the scheme has no others.
pub mod Bearer
mod Tests
use text.Mathlib.Text.{◌==◌}
use gomc_rest.Common.{
  [], ℕ, String, Bool, true, false, not, ◌||◌, take, drop, length, leb, if◌then◌else◌,
}
use gomc_rest.Common.Text.{Text, codes, to_lower, text_eq}
use gomc_rest.Http.{Message, bad_token, Request, Response, write_err, with_header}

abbrev pub scheme : Text
scheme = codes "Bearer "

-- `authExemptPaths`
unfoldable pub is_exempt : String → Bool
is_exempt path = path == "/health"

unfoldable pub token_matches : Text → Text → Bool
token_matches header token =
    if leb (length header) (length scheme)
      || not (text_eq (to_lower (take (length scheme) header)) (to_lower scheme))
    then false
    else text_eq (drop (length scheme) header) token

unfoldable pub unauthorized : Response
unauthorized = with_header "WWW-Authenticate" "Bearer" (write_err 401 "unauthorized" bad_token)

-- A handler acts on a state `Q`.
unfoldable pub require_token :
    {Q : Type 0} → (Request → Q → Response × Q) → Text → Request → Q → Response × Q
unfolding unauthorized
require_token h token r q =
    if text_eq token []
    then h r q
    else if is_exempt r.path
    then h r q
    else if not (token_matches (codes r.authorization) token)
    then (unauthorized, q)
    else h r q
