-- ===== src/Auth/Tests.antt =====
-- The token on a request that carries it.
use gomc_rest.Common.{[]}
use gomc_rest.Http.{Request, Response, write_json, done}

abbrev signed_request : Request
signed_request = record {
  method = "GET";
  path = "/read";
  authorization = "bearer s3cret";
  query = [];
}

abbrev answer_done : Request → Unit {0} → Response × Unit {0}
answer_done r q = (write_json 200 done, q)
