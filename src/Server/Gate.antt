-- ===== src/Server/Gate.antt =====
-- agent/src/server.rs: `handle_request`, from the request to the handler.
use mu5250_wireguard.Base.{
  ◌==◌, ℕ, Bool, true, false, not, ◌&&◌, ◌||◌, Option, none, some, List, [], ◌∷◌, if◌then◌else◌,
  Text, codes, text_eq, Result, ok, err, ltb, length, any, find, map,
}
use mu5250_wireguard.Base.Digits.{lower}
use mu5250_wireguard.Base.Split.{first_piece}
use mu5250_wireguard.Auth.{AuthState, validate}
use mu5250_wireguard.Server.Routes.{
  Method, get, post, options, method_eq, Endpoint, find_route, routes,
}

pub record Header : Type 0 where
  pub field : Text
  pub value : Text

-- `body` is what reading at most 1 MiB and a byte of it gives.
pub record Request : Type 0 where
  pub method : Method
  pub url : Text
  pub headers : List Header
  pub body : Result Text Text

abbrev pub max_body : ℕ
max_body = 1048576

abbrev pub path_of : Request → Text
path_of r = first_piece b'?' r.url

-- `HeaderField::equiv`
abbrev pub equiv : Text → Text → Bool
equiv field name = text_eq (map lower field) (map lower name)

unfoldable pub strip_prefix : Text → Text → Option Text
strip_prefix [] s = some s
strip_prefix (p ∷ ps) [] = none
strip_prefix (p ∷ ps) (b ∷ s) = let rest = strip_prefix ps s in if p == b then rest else none

abbrev token_in : Option Header → Option Text
token_in none = none
token_in (some h) = strip_prefix (codes "Bearer ") h.value

-- The bearer token of the first authorization header.
unfoldable pub bearer : Request → Option Text
bearer r = token_in (find (λ h. text_eq (map lower h.field) (codes "authorization")) r.headers)

unfoldable pub needs_auth : Method → Text → Bool
needs_auth m path =
    not (text_eq path (codes "/api/auth/login"))
    && not (method_eq m post && text_eq path (codes "/api/router/lan/confirm"))

unfoldable pub destructive_paths : List Text
destructive_paths =
    codes "/api/device/reboot" ∷ codes "/api/device/shutdown" ∷ codes "/api/system/kill-bloat" ∷ []

abbrev pub is_destructive_path : Text → Bool
is_destructive_path path = any (λ p. text_eq p path) destructive_paths

unfoldable pub confirmed : Request → Bool
confirmed r =
    any (λ h. equiv h.field (codes "X-Confirm") && text_eq h.value (codes "true")) r.headers

abbrev pub signal_log : Text
signal_log = codes "/api/logger/signal/download"

abbrev pub connection_log : Text
connection_log = codes "/api/logger/connection/download"

-- What becomes of a request: the answer to a preflight, an error status, a log, or a handler with
-- the body, where the table has one.
pub data Verdict : Type 0 where
  preflight : Verdict
  refused : ℕ → Verdict
  download : Text → Verdict
  dispatch : Option Endpoint → Text → Verdict

abbrev with_body : Request → Result Text Text → Verdict
with_body r (err e) = refused 400
with_body r (ok body) =
    if ltb max_body (length body)
    then refused 413
    else dispatch (find_route routes r.method (path_of r)) body

-- The part after the authorization.
unfoldable pub admitted : Request → Verdict
admitted r =
    if is_destructive_path (path_of r) && not (confirmed r)
    then refused 400
    else if method_eq r.method get
        && (text_eq (path_of r) signal_log || text_eq (path_of r) connection_log)
    then download (path_of r)
    else with_body r r.body

abbrev pub has_password : AuthState → Bool
has_password s = elim s.password_hash [ none ↦ false | some h ↦ true ]

abbrev pub authorized_by : ℕ → Option Text → AuthState → Bool × AuthState
authorized_by now none s = (false, s)
authorized_by now (some token) s = validate now token s

-- By whether a password is set, and whether the token is valid.
abbrev pub answered : Request → Bool → Bool → Verdict
answered r false a = refused 403
answered r true false = refused 401
answered r true true = admitted r

-- With the state of the authentication, in which a valid token is renewed.
abbrev pub guarded : Request → Bool × AuthState → Verdict × AuthState
guarded r a = (answered r (has_password a.1) a.0, a.1)

unfoldable pub gate : ℕ → Request → AuthState → Verdict × AuthState
gate now r s =
    if method_eq r.method options
    then (preflight, s)
    else if needs_auth r.method (path_of r)
    then guarded r (authorized_by now (bearer r) s)
    else (admitted r, s)

-- The handlers and the log files, over the rest of the agent and the device.
pub record Handlers (W : Type 0) : Type 0 where
  pub call : Endpoint → Text → Text → Option Text → AuthState → W → ℕ × AuthState × W
  pub open_download : W → Text → Option Text

pub data Response : Type 0 where
  empty : Response
  json : ℕ → Response
  file : Text → Response

abbrev user_agent_in : Option Header → Option Text
user_agent_in none = none
user_agent_in (some h) = some h.value

abbrev user_agent : Request → Option Text
user_agent r = user_agent_in (find (λ h. equiv h.field (codes "User-Agent")) r.headers)

module _ {W : Type 0} (agent : Handlers W) where
  abbrev downloaded : Option Text → Response
  downloaded none = json 404
  downloaded (some content) = file content

  -- What is done for a verdict, with the client's address.
  abbrev pub perform : Verdict → Request → Text → AuthState → W → Response × AuthState × W
  perform preflight r client s w = (empty, s, w)
  perform (refused n) r client s w = (json n, s, w)
  perform (download path) r client s w = (downloaded (agent.open_download w path), s, w)
  perform (dispatch none body) r client s w = (json 404, s, w)
  perform (dispatch (some e) body) r client s w =
      let a = agent.call e body client (user_agent r) s w in (json a.0, a.1, a.2)

  unfoldable pub handle_request : ℕ → Text → Request → AuthState → W → Response × AuthState × W
  handle_request now client r s w = let v = gate now r s in perform v.0 r client v.1 w
