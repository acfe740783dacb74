-- ===== src/Server.antt =====
-- The HTTP server (internal/server): the middleware around the routes, and the probes. A handler is
-- a function of the request that writes a response, changes a state `D`, and returns or panics. The
-- routing is Go's `ServeMux`, and the JSON encoding a library's: parameters. Of a line of the access
-- log stand here its level, the path and the status.
mod Tests
use cairn_mdm.Prelude.{
  ℕ, String, Bool, true, false, ◌||◌, List, [], ◌∷◌, ◌++◌, Option, none, some, string_eq, ◌==◌,
  if◌then◌else◌, starts_with, concat,
}
use cairn_mdm.Prelude.Dict
use cairn_mdm.Prelude.Dict.{Dict}

pub record Request : Type 0 where
  pub method : String
  pub path : String
  pub over_tls : Bool
  pub forwarded_proto : String

-- the `ResponseWriter`, with its header map; `recorded` is the status of `statusRecorder`
pub record Writer : Type 0 where
  pub headers : Dict String
  pub status : Option ℕ
  pub recorded : ℕ
  pub body : String

pub data Level : Type 0 where
  debug info : Level

pub record Line : Type 0 where
  pub level : Level
  pub path : String
  pub status : ℕ

pub data Ending : Type 0 where
  returned panicked : Ending

pub record State (D : Type 0) : Type 0 where
  pub store : D
  pub writer : Writer
  pub log : List Line

abbrev pub Handler : Type 0 → Type 0
Handler D = Request → State D → Ending × State D

abbrev pub set_header : String → String → Writer → Writer
unfolding Dict.insert
set_header key value w = record w { headers = Dict.insert key value w.headers }

-- the first status that is written counts
abbrev first_status : Option ℕ → ℕ → Option ℕ
first_status none code = some code
first_status (some old) code = some old

-- `WriteHeader` of `statusRecorder`, in front of the one of Go
abbrev pub write_header : ℕ → Writer → Writer
write_header code w = record w { status = first_status w.status code; recorded = code }

-- `sensitivePath`
unfoldable pub sensitive_path : String → Bool
sensitive_path p =
    p == "/admin"
    || starts_with p "/admin/"
    || p == "/login"
    || p == "/logout"
    || p == "/enroll"
    || starts_with p "/enroll/"
    || starts_with p "/e/"

abbrev pub csp : String
csp =
    "default-src 'self'; style-src 'self' 'unsafe-inline'; script-src 'self' 'unsafe-inline'; img-src 'self' data:; object-src 'none'; base-uri 'self'; frame-ancestors 'none'"

abbrev pub is_probe : String → Bool
is_probe path = path == "/healthz" || path == "/readyz"

abbrev pub baseline : Writer → Writer
baseline w = set_header "Content-Security-Policy" csp (
    set_header "Permissions-Policy" "geolocation=(), microphone=(), camera=()" (
      set_header "Referrer-Policy" "no-referrer" (set_header "X-Content-Type-Options" "nosniff" w)))

abbrev pub transport_security : (String → String → Bool) → Request → Writer → Writer
transport_security equal_fold r w =
    if r.over_tls || equal_fold r.forwarded_proto "https"
    then set_header "Strict-Transport-Security" "max-age=31536000; includeSubDomains" w
    else w

abbrev pub uncacheable : Request → Writer → Writer
unfolding sensitive_path
uncacheable r w = if sensitive_path r.path then set_header "Cache-Control" "no-store" w else w

abbrev pub line_of : Request → ℕ → Line
line_of r status = record {
  level = if is_probe r.path then debug else info;
  path = r.path;
  status = status;
}

-- `writeJSON`
abbrev pub write_json :
    (List (String × String) → String) → ℕ → List (String × String) → Writer → Writer
write_json encode status fields w =
    let headed = write_header status (set_header "Content-Type" "application/json" w) in
    record headed { body = concat headed.body (encode fields) }

module _ {D : Type 0} where
  abbrev pub on_writer : (Writer → Writer) → State D → State D
  on_writer f s = record s { writer = f s.writer }

  -- a panic passes the line by
  abbrev pub logged : Request → Ending × State D → Ending × State D
  logged r (panicked, s) = (panicked, s)
  logged r (returned, s) = (returned, record s { log = s.log ++ line_of r s.writer.recorded ∷ [] })

  -- `accessLog`
  unfoldable pub access_log : Handler D → Handler D
  access_log next r s = logged r (next r (on_writer (λ w. record w { recorded = 200 }) s))

  abbrev pub readiness : Option (D → Bool) → D → Bool
  readiness none d = true
  readiness (some ping) d = ping d

module _ {D : Type 0} (encode : List (String × String) → String) where
  abbrev pub recovered : Ending × State D → Ending × State D
  recovered (returned, s) = (returned, s)
  recovered (panicked, s) =
      (returned, on_writer (write_json encode 500 (("error", "internal error") ∷ [])) s)

  -- `recoverer`
  unfoldable pub recoverer : Handler D → Handler D
  recoverer next r s = recovered (next r s)

  -- `handleHealthz`
  unfoldable pub handle_healthz : Handler D
  handle_healthz r s = (returned, on_writer (write_json encode 200 (("status", "ok") ∷ [])) s)

  -- `handleReadyz`; `ready` says whether the ping succeeds
  unfoldable pub handle_readyz : Option (D → Bool) → Handler D
  handle_readyz ready r s = (
    returned,
    on_writer
        (if readiness ready s.store
          then write_json encode 200 (("status", "ready") ∷ [])
          else write_json encode 503 (("status", "unavailable") ∷ ("error", "not ready") ∷ []))
        s,
  )

module _ {D : Type 0} (equal_fold : String → String → Bool) where
  -- `secureHeaders`
  unfoldable pub secure_headers : Handler D → Handler D
  secure_headers next r s =
      next r (on_writer (λ w. uncacheable r (transport_security equal_fold r (baseline w))) s)

module _ {D : Type 0} (equal_fold : String → String → Bool)
    (encode : List (String × String) → String) where
  -- `Handler`, of the routes
  unfoldable pub handler : Handler D → Handler D
  unfolding recoverer secure_headers access_log
  handler mux = recoverer encode (secure_headers equal_fold (access_log mux))
