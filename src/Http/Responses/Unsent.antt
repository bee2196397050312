-- ===== src/Http/Responses/Unsent.antt =====
-- `bad_request`, `not_found` and `server_error` of http/HttpHandleReq.h, which are made and never
-- called.
use ey_ps.Prelude.{ℕ, List, ◌++◌}
use ey_ps.Prelude.Bytes.{codes}
use ey_ps.Http.Responses.{Request, Response, bytes}

-- `beast_version` is BOOST_BEAST_VERSION_STRING.
module _ (beast_version : List ℕ) where
  abbrev pub html_response : ℕ → Request → List ℕ → Response
  html_response status req body = record {
    status = status;
    version = req.version;
    server = beast_version;
    content_type = codes "text/html";
    keep_alive = req.keep_alive;
    body = bytes body;
  }

  unfoldable pub bad_request : Request → List ℕ → Response
  bad_request req why = html_response 400 req why

  unfoldable pub not_found : Request → List ℕ → Response
  not_found req target =
      html_response 404 req (codes "the resource " ++ target ++ codes " was not found")

  unfoldable pub server_error : Request → List ℕ → Response
  server_error req what = html_response 500 req (codes "an error: " ++ what)
