-- ===== src/Server/Tests.antt =====
-- A handler that answers, and one that panics.
use cairn_mdm.Prelude.{ℕ, String, true, false, [], ◌∷◌, some, none, ◌≡◌, refl, string_eq, ◌==◌}
use cairn_mdm.Prelude.Dict
use cairn_mdm.Server.{
  Request, State, Handler, debug, panicked, sensitive_path, handler, recoverer, secure_headers,
  access_log, handle_readyz,
}

abbrev request : String → Request
request path = record { method = "GET"; path = path; over_tls = true; forwarded_proto = "" }

abbrev start : State ℕ
start = record {
  store = 0;
  writer = record { headers = []; status = none; recorded = 0; body = "" };
  log = [];
}

abbrev panicking : Handler ℕ
panicking r s = (panicked, s)

abbrev served : Handler ℕ → String → State ℕ
unfolding handler recoverer secure_headers access_log
served mux path = (handler (λ a b. a == b) (λ fields. "json") mux (request path) start).1

server_tests :
    (sensitive_path "/e/abc" ≡ true)
    × (sensitive_path "/enrollment" ≡ false)
    × ((served panicking "/login").writer.status ≡ some 500)
    × ((served panicking "/login").log ≡ [])
    × (Dict.lookup "Cache-Control" (served panicking "/login").writer.headers ≡ some "no-store")
    × ((served (handle_readyz (λ fields. "json") (some (λ d. false))) "/readyz").log
        ≡ record { level = debug; path = "/readyz"; status = 503 } ∷ [])
unfolding sensitive_path handler recoverer secure_headers access_log handle_readyz Dict.lookup
    Dict.insert
server_tests = (refl, refl, refl, refl, refl, refl)
