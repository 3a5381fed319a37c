-- ===== src/Http/Routes/Protected.antt =====
-- src/http.rs: which requests are handled.
use dmarc_report_viewer.Common.{
  ◌≡◌, refl, ◌∙◌, ◌⊎◌, inl, inr, String, Option, some, List, [], ◌∷◌, ◌++◌, Bool, true, false, In,
  All, All-In,
}
use dmarc_report_viewer.Common.Text.{is_blank}
use dmarc_report_viewer.Config.{Configuration}
use dmarc_report_viewer.Http.Auth.{
  AuthEnv, Verdict, run, unauthorized, bad_request, basic_auth_middleware,
}
use dmarc_report_viewer.Http.Auth.Access.{HasCredentials, runs_iff}
use dmarc_report_viewer.Http.Routes.{
  Handler, Route, health, pass, guarded_routes, health_route, routes, route_layer, handled, serve,
}

-- A route that is behind the middleware, or that of the health check
abbrev IsGuarded : Route → Type 0
IsGuarded route = (route.protected ≡ true) ⊎ (route.handler ≡ health)

-- All routes that the middleware is put before are behind it.
route_layer-IsGuarded :
    (rs more : List Route) → All IsGuarded more → All IsGuarded (route_layer rs ++ more)
route_layer-IsGuarded [] more h = h
route_layer-IsGuarded (r ∷ rs) more h = (inl refl, route_layer-IsGuarded rs more h)

routes-IsGuarded : All IsGuarded routes
routes-IsGuarded =
    let last : All IsGuarded (health_route ∷ []) = (inr refl, tt) in
    route_layer-IsGuarded guarded_routes (health_route ∷ []) last

pass-eq-handled :
    (protected : Bool) (verdict : Verdict) (handler given : Handler)
    → pass protected verdict handler ≡ handled given
    → (given ≡ handler) × (protected ≡ true → verdict ≡ run)
unfolding pass
pass-eq-handled false verdict handler given h = (cc, λ e. cc)
pass-eq-handled true run handler given h = (cc, λ e. refl)
pass-eq-handled true unauthorized handler given h = (cc, λ e. cc)
pass-eq-handled true bad_request handler given h = (cc, λ e. cc)

pass-run : (protected : Bool) (handler : Handler) → pass protected run handler ≡ handled handler
unfolding pass
pass-run true handler = refl
pass-run false handler = refl

-- Whatever route the router finds in the table: a request that gets an answer of a handler is one for
-- the health check, or no password is configured, or it has the configured user name and password. A
-- request with these, or under no password, is handled by the handler of its route.
pub serve-IsAllowed :
    (find : List Route → String → String → Option Route) (env : AuthEnv) (config : Configuration)
    (method path : String) (authorization : Option (Option String)) (route : Route)
    → find routes method path ≡ some route
    → In route routes
    → ((handler : Handler)
        → serve find env config method path authorization ≡ handled handler
        → (handler ≡ health)
          ⊎ ((is_blank config.http_server_password ≡ true)
              ⊎ HasCredentials env config authorization))
      × ((is_blank config.http_server_password ≡ true) ⊎ HasCredentials env config authorization
          → serve find env config method path authorization ≡ handled route.handler)
unfolding serve
serve-IsAllowed find env config method path authorization route found listed = (
  λ handler h.
      let (same, passed) =
        pass-eq-handled route.protected (basic_auth_middleware env config authorization)
          route.handler handler (rw (found, serve) at h) in
      elim (All-In IsGuarded route routes routes-IsGuarded listed) [
        | inr e ↦ inl (same ∙ e)
        | inl guarded ↦ inr ((runs_iff env config authorization).0 (passed guarded))
      ],
  λ allowed.
      rw (found, (runs_iff env config authorization).1 allowed, serve)
        (pass-run route.protected route.handler),
)
