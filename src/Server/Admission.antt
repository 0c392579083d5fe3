-- ===== src/Server/Admission.antt =====
-- agent/src/server.rs: what has been checked of a request that gets past each check.
use mu5250_wireguard.Base.{
  ℕ, ◌≤◌, ◌≡◌, ◌⊎◌, inl, inr, Bool, true, false, not, ◌&&◌, ◌||◌, Option, none, some, List, [], ◌∷◌,
  Text, text_eq, text_eq_iff, ltb, length, all, Bool-cases, Result-cases, arith, refl, sym, subst,
  ◌∙◌, ◌≢◌,
}
use mu5250_wireguard.Auth.{AuthState, validate}
use mu5250_wireguard.Auth.Tokens.{holds, validate-holds}
use mu5250_wireguard.Server.Gate.{
  download, answered, authorized_by, needs_auth, is_destructive_path, destructive_paths, Request,
  Verdict, dispatch, refused, preflight, gate, admitted, bearer, confirmed, has_password, max_body,
  path_of, signal_log, connection_log,
}
use mu5250_wireguard.Server.Routes.{
  Method, get, options, method_eq, method_eq-eq, Endpoint, Route, find_route, routes,
  handlers_login, router_lan_confirm, device_ext_device_reboot, device_ext_device_shutdown,
  handlers_system_kill_bloat,
}

-- The handlers that nobody has to log in for.
unfoldable pub is_open : Endpoint → Bool
is_open handlers_login = true
is_open router_lan_confirm = true
is_open _ = false

-- The handlers that stop the device or its processes.
unfoldable pub is_destructive : Endpoint → Bool
is_destructive device_ext_device_reboot = true
is_destructive device_ext_device_shutdown = true
is_destructive handlers_system_kill_bloat = true
is_destructive _ = false

-- What a test holds of every arm holds of the arm that is found.
pub find_route-all :
    (p : Method → Text → Endpoint → Bool) (rs : List Route) (m : Method) (path : Text)
    {e : Endpoint}
    → find_route rs m path ≡ some e
    → all (λ r. p r.method r.path r.endpoint) rs ≡ true
    → p m path e ≡ true
unfolding find_route
find_route-all p [] m path h k = absurd (ground arith)
find_route-all p (r ∷ rs) m path {e = e} h k =
    elim (Bool-cases (method_eq m r.method && text_eq path r.path)) [
      | inr l ↦ find_route-all p rs m path (ground (arith, l, h)) (ground (arith, k))
      | inl l ↦
          let here : p r.method r.path r.endpoint ≡ true = ground (arith, k) in
          let found : r.endpoint ≡ e = ground (arith, l, h) in
          let same_method = method_eq-eq m r.method (ground (arith, l)) in
          let same_path = (text_eq_iff path r.path).0 (ground (arith, l)) in
          ground (arith, here, found, same_method, same_path)
    ]

pub open_routes : all (λ r. is_open r.endpoint || needs_auth r.method r.path) routes ≡ true
unfolding routes is_open needs_auth text_eq
open_routes = refl

pub destructive_routes :
    all (λ r. not (is_destructive r.endpoint) || is_destructive_path r.path) routes ≡ true
unfolding routes is_destructive destructive_paths text_eq
destructive_routes = refl

either : {a b : Bool} → (a && not b) ≡ false → (a ≡ false) ⊎ (b ≡ true)
either {a = true} {b = true} h = inr refl
either {a = true} {b = false} h = absurd (ground arith)
either {a = false} h = inl refl

-- What reaches a handler after the authorization.
pub admitted-dispatch :
    (r : Request) {e : Endpoint} {body : Text}
    → admitted r ≡ dispatch (some e) body
    → (find_route routes r.method (path_of r) ≡ some e)
      × ((is_destructive_path (path_of r) ≡ false) ⊎ (confirmed r ≡ true))
      × (length body ≤ max_body)
unfolding admitted
admitted-dispatch r {e = e} {body = body} h =
    elim (Bool-cases (is_destructive_path (path_of r) && not (confirmed r))) [
      | inl k ↦ absurd (ground (arith, k, h))
      | inr k ↦
          elim (Bool-cases (
            method_eq r.method get
            && (text_eq (path_of r) signal_log || text_eq (path_of r) connection_log))) [
              | inl l ↦ absurd (ground (arith, k, l, h))
              | inr l ↦ elim (Result-cases r.body) [
                | inr (x, n) ↦ absurd (ground (arith, k, l, n, h))
                | inl (b, n) ↦ elim (Bool-cases (ltb max_body (length b))) [
                  | inl o ↦ absurd (ground (arith, k, l, n, o, h))
                  | inr o ↦
                      let same : dispatch (find_route routes r.method (path_of r)) b
                          ≡ dispatch (some e) body =
                        ground (arith, k, l, n, o, h) in
                      let body_same : b ≡ body = ground (arith, same) in
                      (
                        ground (arith, same),
                        either k,
                        subst (λ t. length t ≤ max_body) body_same (ground (arith, o)),
                      )
                ]
              ]
            ]
    ]

-- Whoever gets past the authorization.
abbrev pub IsAuthorized : ℕ → Request → AuthState → Type 0
IsAuthorized now r s =
    (token : Text) × (bearer r ≡ some token)
    × (holds now token s.tokens ≡ true)
    × (has_password s ≡ true)

authorized_by-holds :
    (now : ℕ) (o : Option Text) (s : AuthState)
    → (authorized_by now o s).0 ≡ true
    → (token : Text) × (o ≡ some token) × (holds now token s.tokens ≡ true)
authorized_by-holds now none s h = absurd (ground arith)
authorized_by-holds now (some token) s h = (token, refl, sym (validate-holds now token s) ∙ h)

authorized_by-password :
    (now : ℕ) (o : Option Text) (s : AuthState)
    → (authorized_by now o s).1.password_hash ≡ s.password_hash
unfolding validate
authorized_by-password now none s = refl
authorized_by-password now (some token) s = refl

answered-admitted :
    (r : Request) (password valid : Bool) (v : Verdict)
    → answered r password valid ≡ v
    → v ≢ refused 401
    → v ≢ refused 403
    → (valid ≡ true) × (password ≡ true) × (admitted r ≡ v)
answered-admitted r false valid v h n m = absurd (m (sym h))
answered-admitted r true false v h n m = absurd (n (sym h))
answered-admitted r true true v h n m = (refl, refl, h)

pub gate-admitted :
    (now : ℕ) (r : Request) (s : AuthState) (v : Verdict)
    → (gate now r s).0 ≡ v
    → v ≢ preflight
    → v ≢ refused 401
    → v ≢ refused 403
    → ((needs_auth r.method (path_of r) ≡ false) ⊎ IsAuthorized now r s) × (admitted r ≡ v)
unfolding gate
gate-admitted now r s v h p n m = elim (Bool-cases (method_eq r.method options)) [
  | inl e ↦ absurd (p (sym (ground (arith, e, h))))
  | inr e ↦ elim (Bool-cases (needs_auth r.method (path_of r))) [
    | inr k ↦ (inl k, ground (arith, e, k, h))
    | inl k ↦
        let a = authorized_by now (bearer r) s in
        let past : answered r (has_password a.1) a.0 ≡ v = ground (arith, e, k, h) in
        let fact = answered-admitted r (has_password a.1) a.0 v past n m in
        let token = authorized_by-holds now (bearer r) s fact.0 in
        let password = authorized_by-password now (bearer r) s in
        (inr (token.0, token.1, token.2, rw (← password) fact.1), fact.2)
  ]
]

pub admitted-download :
    (r : Request) {path : Text}
    → admitted r ≡ download path
    → (r.method ≡ get)
      × ((path_of r ≡ signal_log) ⊎ (path_of r ≡ connection_log))
      × (path_of r ≡ path)
unfolding admitted
admitted-download r {path = path} h =
    elim (Bool-cases (is_destructive_path (path_of r) && not (confirmed r))) [
      | inl k ↦ absurd (ground (arith, k, h))
      | inr k ↦
          elim (Bool-cases (
            method_eq r.method get
            && (text_eq (path_of r) signal_log || text_eq (path_of r) connection_log))) [
              | inr l ↦ elim (Result-cases r.body) [
                | inr (x, n) ↦ absurd (ground (arith, k, l, n, h))
                | inl (b, n) ↦ elim (Bool-cases (ltb max_body (length b))) [
                  | inl o ↦ absurd (ground (arith, k, l, n, o, h))
                  | inr o ↦ absurd (ground (arith, k, l, n, o, h))
                ]
              ]
              | inl l ↦
                  let same : download (path_of r) ≡ download path = ground (arith, k, l, h) in
                  (
                    method_eq-eq r.method get (ground (arith, l)),
                    elim (Bool-cases (text_eq (path_of r) signal_log)) [
                      | inl o ↦ inl ((text_eq_iff (path_of r) signal_log).0 o)
                      | inr o ↦
                          inr ((text_eq_iff (path_of r) connection_log).0 (ground (arith, l, o)))
                    ],
                    ground (arith, same),
                  )
            ]
    ]

pub log_needs_auth :
    (path : Text) → (path ≡ signal_log) ⊎ (path ≡ connection_log) → needs_auth get path ≡ true
unfolding needs_auth text_eq
log_needs_auth path (inl h) = rw h refl
log_needs_auth path (inr h) = rw h refl
