-- ===== src/Server/Guarded.antt =====
-- agent/src/server.rs: which requests reach a handler.
use mu5250_wireguard.Auth.Tokens.{holds, unexpired, validate-unheld, IsRenewed, validate-IsRenewed}
use mu5250_wireguard.Server.Admission.{
  is_open, is_destructive, IsAuthorized, find_route-all, open_routes, destructive_routes,
  admitted-dispatch, gate-admitted, admitted-download, log_needs_auth,
}
use mu5250_wireguard.Base.{
  ℕ, ◌≤◌, ◌≡◌, ◌⊎◌, inl, inr, true, false, not, ◌||◌, none, some, Text, length, arith, refl, sym,
  subst, Option, Bool-cases, List,
}
use mu5250_wireguard.Auth.{AuthState, Token}
use mu5250_wireguard.Server.Gate.{
  authorized_by, bearer, perform, Handlers, download, handle_request, needs_auth,
  is_destructive_path, Request, Verdict, dispatch, refused, preflight, gate, confirmed, max_body,
  path_of, signal_log, connection_log, has_password,
}
use mu5250_wireguard.Server.Routes.{options, get, Endpoint, find_route, routes, method_eq}

-- A request that reaches a handler is for the handler of its method and path. Either that handler
-- is the login or the confirmation of a LAN change, or a password is set and the request's first
-- authorization header bears a token that the agent holds and that expires later than now. A
-- handler that stops the device or its processes is reached only with the header `X-Confirm: true`.
-- The body has at most 1 MiB.
pub gate_guarded :
    (now : ℕ) (r : Request) (s : AuthState) (e : Endpoint) (body : Text)
    → (gate now r s).0 ≡ dispatch (some e) body
    → (find_route routes r.method (path_of r) ≡ some e)
      × ((is_open e ≡ true) ⊎ IsAuthorized now r s)
      × ((is_destructive e ≡ false) ⊎ (confirmed r ≡ true))
      × (length body ≤ max_body)
gate_guarded now r s e body h =
    let past =
      gate-admitted now r s (dispatch (some e) body) h (λ k. absurd (cc)) (λ k. absurd (cc))
        (λ k. absurd (cc)) in
    let reached = admitted-dispatch r past.1 in
    let open_check =
      find_route-all (λ m p e. is_open e || needs_auth m p) routes r.method (path_of r) reached.0
        open_routes in
    let destructive_check =
      find_route-all (λ m p e. not (is_destructive e) || is_destructive_path p) routes r.method
        (path_of r) reached.0 destructive_routes in
    (
      reached.0,
      elim past.0 [ inl k ↦ inl (ground (arith, open_check, k)) | inr k ↦ inr k ],
      elim reached.1 [ inl k ↦ inl (ground (arith, destructive_check, k)) | inr k ↦ inr k ],
      reached.2,
    )

-- A log file is sent only for a `GET` of one of the two paths of logs, where a password is set and
-- the request's first authorization header bears a token that the agent holds and that expires
-- later than now.
pub download_guarded :
    (now : ℕ) (r : Request) (s : AuthState) (path : Text)
    → (gate now r s).0 ≡ download path
    → (r.method ≡ get) × ((path ≡ signal_log) ⊎ (path ≡ connection_log)) × IsAuthorized now r s
download_guarded now r s path h =
    let past =
      gate-admitted now r s (download path) h (λ k. absurd (cc)) (λ k. absurd (cc))
        (λ k. absurd (cc)) in
    let (from, log, same) = admitted-download r past.1 in
    (
      from,
      subst (λ p. (p ≡ signal_log) ⊎ (p ≡ connection_log)) same log,
      elim past.0 [
        | inr k ↦ k
        | inl k ↦
            let needed : needs_auth r.method (path_of r) ≡ true =
              subst (λ m. needs_auth m (path_of r) ≡ true) (sym from)
                (log_needs_auth (path_of r) log) in
            absurd (ground (arith, k, needed))
      ],
    )

-- What a request that no valid token comes with leaves of the authentication.
abbrev pub Untouched : ℕ → Request → AuthState → AuthState → Type 0
Untouched now r s t =
    (t ≡ s)
    ⊎ (t ≡ unexpired now s)
    ⊎ ((has_password s ≡ false)
        × (token : Text) × (bearer r ≡ some token)
        × (ts : List Token) × (t ≡ record s { tokens = ts })
        × IsRenewed now token (unexpired now s).tokens ts)

authorized_by-Untouched :
    (now : ℕ) (r : Request) (s : AuthState) (o : Option Text)
    → bearer r ≡ o
    → ¬ IsAuthorized now r s
    → Untouched now r s (authorized_by now o s).1
authorized_by-Untouched now r s none h foreign = inl refl
authorized_by-Untouched now r s (some token) h foreign =
    elim (Bool-cases (holds now token s.tokens)) [
      | inr k ↦ inr (inl (validate-unheld now token s k))
      | inl k ↦
          let (ts, same, once) = validate-IsRenewed now token s k in
          elim (Bool-cases (has_password s)) [
            | inl p ↦ absurd (foreign (token, h, k, p))
            | inr p ↦ inr (inr (p, token, h, ts, same, once))
          ]
    ]

gate-Untouched :
    (now : ℕ) (r : Request) (s : AuthState)
    → ¬ IsAuthorized now r s
    → Untouched now r s (gate now r s).1
unfolding gate
gate-Untouched now r s foreign = elim (Bool-cases (method_eq r.method options)) [
  | inl e ↦ inl (ground (arith, e))
  | inr e ↦ elim (Bool-cases (needs_auth r.method (path_of r))) [
    | inr k ↦ inl (ground (arith, e, k))
    | inl k ↦ rw e (rw k (authorized_by-Untouched now r s (bearer r) refl foreign))
  ]
]

perform-changed :
    {W : Type 0} (agent : Handlers W) (v : Verdict) (r : Request) (client : Text) (s : AuthState)
    (w : W)
    → (((perform agent v r client s w).1 ≡ s) × ((perform agent v r client s w).2 ≡ w))
      ⊎ ((e : Endpoint) × (body : Text) × (v ≡ dispatch (some e) body))
perform-changed agent preflight r client s w = inl (refl, refl)
perform-changed agent (refused n) r client s w = inl (refl, refl)
perform-changed agent (download path) r client s w = inl (refl, refl)
perform-changed agent (dispatch none body) r client s w = inl (refl, refl)
perform-changed agent (dispatch (some e) body) r client s w = inr (e, body, refl)

-- Whatever the handlers do: a request that does not bear a valid token leaves the device and the
-- rest of the agent as they are, and the state of the authentication either as it is, or without
-- the tokens that have expired and otherwise as it is, or, where no password is set and the request
-- bears a token that is held and has not expired, without the expired tokens, with that token given
-- another hour, and otherwise as it is; unless the request's method and path are those of the login or of the confirmation of a LAN change, the two
-- handlers of `is_open`.
pub unauthorized_unchanged :
    {W : Type 0} (agent : Handlers W) (now : ℕ) (client : Text) (r : Request) (s : AuthState)
    (w : W)
    → ¬ IsAuthorized now r s
    → (((handle_request agent now client r s w).2 ≡ w)
        × Untouched now r s (handle_request agent now client r s w).1)
      ⊎ ((e : Endpoint) × (find_route routes r.method (path_of r) ≡ some e) × (is_open e ≡ true))
unfolding handle_request
unauthorized_unchanged agent now client r s w foreign =
    elim (perform-changed agent (gate now r s).0 r client (gate now r s).1 w) [
      | inl (kept, same) ↦
          inl (same, subst (Untouched now r s) (sym kept) (gate-Untouched now r s foreign))
      | inr (e, body, h) ↦
          let (route, who, stops, small) = gate_guarded now r s e body h in
          elim who [ inr bearing ↦ absurd (foreign bearing) | inl free ↦ inr (e, route, free) ]
    ]
