-- ===== src/Http/Guards.antt =====
-- handler.go: the guards that answer a request before it is looked at.
use text.Mathlib.Text.{◌==◌}
use gomc_rest.Common.{String, Bool, not, ◌&&◌, ◌||◌, if◌then◌else◌, Result, ok, err, List}
use gomc_rest.Http.{
  Message, method_required, read_only, remote_disabled, Request, Response, write_err, with_header,
  bad_request,
}
use gomc_rest.Http.Params.{reject_unknown_params}

-- A guard lets the request through, or has written the response.
abbrev pub Guard : Type 0 → Type 0
Guard A = Result Response A

-- RFC 9110: a path that supports GET supports HEAD.
unfoldable pub require_method : Request → String → Guard (Unit {0})
require_method r method =
    if r.method == method || (method == "GET" && r.method == "HEAD")
    then ok tt
    else err (
        with_header "Allow" (if method == "GET" then "GET, HEAD" else method)
          (write_err 405 "bad_request" (method_required method)))

unfoldable pub require_writable : Bool → Guard (Unit {0})
require_writable readonly =
    if not readonly then ok tt else err (write_err 403 "forbidden" read_only)

unfoldable pub require_remote_enabled : Bool → Guard (Unit {0})
require_remote_enabled enable_remote =
    if enable_remote then ok tt else err (write_err 403 "forbidden" remote_disabled)

-- An error of a check becomes a 400.
abbrev pub or_bad_request : {A : Type 0} → Result Message A → Guard A
or_bad_request (ok a) = ok a
or_bad_request (err m) = err (bad_request m)

unfoldable pub allow_params : Request → List String → Guard (Unit {0})
allow_params r allowed = or_bad_request (reject_unknown_params r.query allowed)
