-- ===== src/Router/Guarded.antt =====
-- What the API key keeps out, whatever route gin finds.
use chronos_monitor.Prelude.{
  ℕ, zero, suc, String, ◌≡◌, ◌≢◌, ◌⊎◌, refl, inl, inr, List, [], ◌∷◌, Option, none, some, Bool,
  true, All, Bool-cases,
}
use chronos_monitor.Clock.{Time}
use chronos_monitor.Server.{Server}
use chronos_monitor.Router.{require_api_key, unauthorized}
use chronos_monitor.Router.Access.{Presents, access_cases}
use chronos_monitor.Router.Routes.{
  Incoming, health, Route, routes, Found, no_route, redirection, found, route_at, Sending, healthy,
  redirected, page, response, streaming, Dispatched, call, reach, taken, follow, dispatch,
}

-- What is sent to a request without the key.
abbrev pub IsOpen : Sending → Type 0
IsOpen healthy = Unit
IsOpen (redirected target) = Unit
IsOpen (page p) = Unit
IsOpen (response r) = r ≡ unauthorized
IsOpen (streaming id) = ⊥

abbrev pub IsKeptOut : Server → Dispatched → Type 0
IsKeptOut s x = (sent : Sending) × (x ≡ some (sent, s)) × IsOpen sent

abbrev IsGuarded : Route → Type 0
IsGuarded r = (r.keyed ≡ true) ⊎ (r.target ≡ health)

routes-IsGuarded : All IsGuarded routes
unfolding routes
routes-IsGuarded = (
  inr refl,
  (
    inl refl,
    (
      inl refl,
      (
        inl refl,
        (inl refl, (inl refl, (inl refl, (inl refl, (inl refl, (inl refl, (inl refl, tt))))))),
      ),
    ),
  ),
)

abbrev AtMost : (Route → Type 0) → Option Route → Type 0
AtMost P none = Unit
AtMost P (some r) = P r

route_at-All : (P : Route → Type 0) (i : ℕ) (rs : List Route) → All P rs → AtMost P (route_at i rs)
route_at-All P i [] h = tt
route_at-All P zero (r ∷ rs) h = h.0
route_at-All P (suc i) (r ∷ rs) h = route_at-All P i rs h.1

no_key : (authorization token : String) → require_api_key "" authorization token ≡ none
unfolding require_api_key
no_key authorization token = refl

module _ (format : Time → String) (parse_standard : String → Option (Time → Time))
    (collates : String → String → Bool) where
  reach-IsKeptOut :
      (key : String) (r : Route) (q : Incoming) (x : String) (now : Time) (s : Server)
      → require_api_key key q.authorization q.token ≡ some unauthorized
      → IsGuarded r
      → IsKeptOut s (reach format parse_standard collates key r q x now s)
  unfolding reach call
  reach-IsKeptOut key r q x now s h (inl keyed) = rw (keyed, h) (response unauthorized, refl, refl)
  reach-IsKeptOut key r q x now s h (inr is_health) = elim (Bool-cases r.keyed) [
    | inl keyed ↦ rw (keyed, h) (response unauthorized, refl, refl)
    | inr free ↦ rw (free, is_health) (healthy, refl, tt)
  ]

  let_in :
      (key : String) (r : Route) (q : Incoming) (x : String) (now : Time) (s : Server)
      → require_api_key key q.authorization q.token ≡ none
      → reach format parse_standard collates key r q x now s
        ≡ reach format parse_standard collates "" r q x now s
  unfolding reach
  let_in key r q x now s h = rw (h, no_key q.authorization q.token) refl

  module _ (is_asset : String → Bool) (index_html : Option String) where
    taken-IsKeptOut :
        (key : String) (r : Option Route) (q : Incoming) (x : String) (now : Time) (s : Server)
        → require_api_key key q.authorization q.token ≡ some unauthorized
        → AtMost IsGuarded r
        → IsKeptOut s (taken format parse_standard collates is_asset index_html key r q x now s)
    taken-IsKeptOut key none q x now s h g = (page _, refl, tt)
    taken-IsKeptOut key (some r) q x now s h g = reach-IsKeptOut key r q x now s h g

    taken-let_in :
        (key : String) (r : Option Route) (q : Incoming) (x : String) (now : Time) (s : Server)
        → require_api_key key q.authorization q.token ≡ none
        → taken format parse_standard collates is_asset index_html key r q x now s
          ≡ taken format parse_standard collates is_asset index_html "" r q x now s
    taken-let_in key none q x now s h = refl
    taken-let_in key (some r) q x now s h = let_in key r q x now s h

    follow-IsKeptOut :
        (key : String) (f : Found) (q : Incoming) (now : Time) (s : Server)
        → require_api_key key q.authorization q.token ≡ some unauthorized
        → IsKeptOut s (follow format parse_standard collates is_asset index_html key f q now s)
    follow-IsKeptOut key no_route q now s h = (page _, refl, tt)
    follow-IsKeptOut key (redirection target) q now s h = (redirected target, refl, tt)
    follow-IsKeptOut key (found i x) q now s h =
        taken-IsKeptOut key (route_at i routes) q x now s h
          (route_at-All IsGuarded i routes routes-IsGuarded)

    follow-let_in :
        (key : String) (f : Found) (q : Incoming) (now : Time) (s : Server)
        → require_api_key key q.authorization q.token ≡ none
        → follow format parse_standard collates is_asset index_html key f q now s
          ≡ follow format parse_standard collates is_asset index_html "" f q now s
    follow-let_in key no_route q now s h = refl
    follow-let_in key (redirection target) q now s h = refl
    follow-let_in key (found i x) q now s h = taken-let_in key (route_at i routes) q x now s h

    -- With an API key set, and whatever route gin finds for a request: if the Authorization header
    -- is "Bearer " and the key, or does not begin with "Bearer " and the token parameter is the key,
    -- the request is served as without a key. Otherwise the server stays as it was, and what is sent
    -- is a 401, the answer of /healthz, a page of the dashboard, or a redirection.
    pub dispatch_lem :
        (find : List Route → String → String → Found) (key : String) (q : Incoming) (now : Time)
        (s : Server)
        → key ≢ ""
        → (Presents key q.authorization q.token
            × (dispatch format parse_standard collates is_asset index_html find key q now s
                ≡ dispatch format parse_standard collates is_asset index_html find "" q now s))
          ⊎ ((Presents key q.authorization q.token → ⊥)
              × IsKeptOut s
                  (dispatch format parse_standard collates is_asset index_html find key q now s))
    unfolding dispatch
    dispatch_lem find key q now s n = elim (access_cases key q.authorization q.token n) [
      | inl (presents, accepted) ↦
          inl (presents, follow-let_in key (find routes q.method q.path) q now s accepted)
      | inr (lacks, refused) ↦
          inr (lacks, follow-IsKeptOut key (find routes q.method q.path) q now s refused)
    ]
