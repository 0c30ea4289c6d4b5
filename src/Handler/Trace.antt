-- ===== src/Handler/Trace.antt =====
-- handler.go: the query that `handleRandomRead` and `handleRandomWrite` leave for the request log,
-- once the body is decoded. Every other handler leaves the query that came.
use gomc_rest.Common.{Bool, List, [], ◌∷◌, map, take, ok, err, ◌>>=◌, ◌>>◌}
use gomc_rest.Common.Text.{Text, codes}
use gomc_rest.Http.{Request}
use gomc_rest.Http.Guards.{Guard, require_method, require_writable, allow_params}
use gomc_rest.Http.Json.{Decoded, decode_body}
use gomc_rest.LogQuery.{build_log_query}
use gomc_rest.Queue.Ops.{max_random_count}
use gomc_rest.Handler.RandomRead.{RandomReadBody}
use gomc_rest.Handler.RandomWrite.{RandomWriteBody, Entry}

abbrev keys : List Text
keys = codes "words" ∷ codes "dwords" ∷ codes "bits" ∷ []

abbrev query_or : Text → Guard Text → Text
query_or raw (ok query) = query
query_or raw (err response) = raw

unfoldable pub random_read_query : Text → Request → Decoded RandomReadBody → Text
random_read_query raw r sent = query_or raw (do
  require_method r "POST"
  allow_params r []
  body ← decode_body sent
  ok (
      build_log_query keys
        (map codes body.words ∷ map codes body.dwords ∷ map codes body.bits ∷ [])))

-- The addresses of the first entries.
unfoldable pub entry_addrs : {V : Type 0} → List (Entry V) → List Text
entry_addrs es = map (λ e. codes e.addr) (take max_random_count es)

unfoldable pub random_write_query : Bool → Text → Request → Decoded RandomWriteBody → Text
unfolding entry_addrs
random_write_query readonly raw r sent = query_or raw (do
  require_method r "POST"
  require_writable readonly
  allow_params r []
  body ← decode_body sent
  ok (
      build_log_query keys
        (entry_addrs body.words ∷ entry_addrs body.dwords ∷ entry_addrs body.bits ∷ [])))
