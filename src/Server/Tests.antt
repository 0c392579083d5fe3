-- ===== src/Server/Tests.antt =====
-- Requests with and without a token, an origin, and a command.
use mu5250_wireguard.Base.{
  ℕ, ◌≤◌, ◌≡◌, ◌⊎◌, true, false, none, some, List, [], ◌∷◌, Text, codes, text_eq, ok, length, any,
  arith, refl, ◌+◌,
}
use mu5250_wireguard.Base.Digits.{trim}
use mu5250_wireguard.Base.Split.{split}
use mu5250_wireguard.Base.World.{Io}
use mu5250_wireguard.Server.Console.{is_at_command_allowed, is_upper_allowed, blocked_prefixes}
use mu5250_wireguard.Server.Origin.{is_lan_origin, is_lan_host}
use mu5250_wireguard.Base.Split.{first_piece}
use mu5250_wireguard.Base.Digits.{parse_uint}
use mu5250_wireguard.Json.{entry}
use mu5250_wireguard.Json.{Value, object, end, field, string, index, as_str}
use mu5250_wireguard.Auth.{AuthState, validate}
use mu5250_wireguard.Server.Routes.{get, put, Endpoint, handlers_device, find_route, routes}
use mu5250_wireguard.Server.Gate.{
  Request, Header, Handlers, gate, dispatch, download, signal_log, connection_log, path_of,
  max_body, confirmed, handle_request, admitted, bearer, needs_auth, destructive_paths,
  strip_prefix,
}
use mu5250_wireguard.Server.Admission.{IsAuthorized, is_open, is_destructive}
use mu5250_wireguard.Server.Guarded.{
  Untouched, gate_guarded, download_guarded, unauthorized_unchanged,
}
use mu5250_wireguard.Server.Origin.{
  allowed_origin, allowed_origin-private, starts_with, host_of, IsPrivateHost, octets_of,
}
use mu5250_wireguard.Server.Console.{at_console, at_console_guarded, allowed_exact}

abbrev held : AuthState
held = record {
  password_hash = some (codes "ab");
  pin_hash = none;
  salt = [];
  tokens = record { value = codes "t"; expires = 100 } ∷ [];
  failed_logins = λ ip. none;
}

abbrev bearing : List Header
bearing = record { field = codes "Authorization"; value = codes "Bearer t" } ∷ []

abbrev device_request : Request
device_request = record {
  method = get;
  url = codes "/api/device?x=1";
  headers = bearing;
  body = ok [];
}

device_dispatched : (gate 5 device_request held).0 ≡ dispatch (some handlers_device) []
unfolding gate first_piece needs_auth bearer strip_prefix validate admitted destructive_paths
    text_eq find_route routes
device_dispatched = refl

gate_guarded_example :
    (find_route routes get (path_of device_request) ≡ some handlers_device)
    × ((is_open handlers_device ≡ true) ⊎ IsAuthorized 5 device_request held)
    × ((is_destructive handlers_device ≡ false) ⊎ (confirmed device_request ≡ true))
    × (length {A = ℕ} [] ≤ max_body)
gate_guarded_example = gate_guarded 5 device_request held handlers_device [] device_dispatched

abbrev log_request : Request
log_request = record {
  method = get;
  url = codes "/api/logger/signal/download";
  headers = bearing;
  body = ok [];
}

log_downloaded : (gate 5 log_request held).0 ≡ download signal_log
unfolding gate first_piece needs_auth bearer strip_prefix validate admitted destructive_paths
    text_eq
log_downloaded = refl

download_guarded_example :
    (log_request.method ≡ get)
    × ((signal_log ≡ signal_log) ⊎ (signal_log ≡ connection_log))
    × IsAuthorized 5 log_request held
download_guarded_example = download_guarded 5 log_request held signal_log log_downloaded

abbrev foreign_request : Request
foreign_request = record { method = put; url = codes "/api/usb/mode"; headers = []; body = ok [] }

abbrev counting : Handlers ℕ
counting = record {
  call = λ e body client agent s w. (200, s, w + 1);
  open_download = λ w path. none;
}

foreign_refused : ¬ IsAuthorized 5 foreign_request held
unfolding bearer
foreign_refused h = absurd (ground (arith, h.1))

unauthorized_unchanged_example :
    (((handle_request counting 5 (codes "10.0.0.9") foreign_request held 7).2 ≡ 7)
      × Untouched 5 foreign_request held
          (handle_request counting 5 (codes "10.0.0.9") foreign_request held 7).1)
    ⊎ ((e : Endpoint) × (find_route routes put (path_of foreign_request) ≡ some e)
        × (is_open e ≡ true))
unauthorized_unchanged_example =
    unauthorized_unchanged counting 5 (codes "10.0.0.9") foreign_request held 7 foreign_refused

abbrev origin : Text
origin = codes "http://192.168.0.2:9090"

origin_allowed : allowed_origin (some origin) ≡ origin
unfolding allowed_origin is_lan_origin is_lan_host starts_with first_piece split octets_of
    parse_uint text_eq
origin_allowed = refl

allowed_origin-private_example :
    (allowed_origin (some origin) ≡ [])
    ⊎ ((allowed_origin (some origin) ≡ origin)
        × (starts_with (codes "http://") origin ≡ true)
        × ((host_of origin ≡ codes "localhost")
            ⊎ (host_of origin ≡ codes "127.0.0.1")
            ⊎ IsPrivateHost (host_of origin)))
allowed_origin-private_example = allowed_origin-private origin

abbrev echo : Text → ℕ → Io (List Text) Text Text
echo command timeout w = (ok (codes "OK"), command ∷ w)

abbrev signal_query : Value
signal_query = object (field (codes "command") (string (codes "AT+CSQ")) end)

query_sent :
    at_console (λ s. s) echo (some signal_query) []
    ≡ ((200, some (codes "OK")), codes "AT+CSQ" ∷ [])
unfolding at_console index entry is_at_command_allowed is_upper_allowed trim blocked_prefixes
    allowed_exact starts_with text_eq
query_sent = refl

at_console_guarded_example :
    ((at_console (λ s. s) echo (some signal_query) []).1 ≡ [])
    ⊎ ((command : Text) × (timeout : ℕ) × (as_str (index signal_query (codes "command"))
          ≡ some command)
        × (timeout ≤ 30)
        × (any (λ c. text_eq c (trim command)) allowed_exact ≡ true)
        × ((at_console (λ s. s) echo (some signal_query) []).1 ≡ (echo command timeout []).1))
at_console_guarded_example = at_console_guarded (λ s. s) echo signal_query []
