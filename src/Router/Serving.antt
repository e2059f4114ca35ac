-- ===== src/Router/Serving.antt =====
-- What the server goes on being, whatever route gin finds.
use chronos_monitor.Prelude.{
  String, ◌≡◌, ◌⊎◌, refl, inl, inr, List, Option, none, some, Bool, Bool-cases, ◌<◌,
}
use chronos_monitor.Clock.{Time}
use chronos_monitor.Broker.{subscribe}
use chronos_monitor.Broker.Soundness.{subscribe-IsSound}
use chronos_monitor.Server.{Server, Response}
use chronos_monitor.System.{Request, serve}
use chronos_monitor.System.Invariant.{IsHealthy, serve_lem}
use chronos_monitor.Router.{require_api_key}
use chronos_monitor.Router.Routes.{
  Incoming, Target, health, stream, calls, Route, routes, Found, no_route, redirection, found,
  route_at, Sending, healthy, redirected, page, response, streaming, Dispatched, responded,
  unless_refused, call, reach, taken, follow, dispatch,
}

-- What is left of the server's hub, and of the server, by what is sent.
abbrev pub Fits : Server → Server → Sending → Type 0
Fits s s' healthy = s' ≡ s
Fits s s' (redirected target) = s' ≡ s
Fits s s' (page p) = s' ≡ s
Fits s s' (response r) = (r.status < 300) ⊎ (s'.hub ≡ s.hub)
Fits s s' (streaming id) =
    (id ≡ (subscribe s.hub).0) × (s' ≡ record s { hub = (subscribe s.hub).1 })

module _ (format : Time → String) (parse_standard : String → Option (Time → Time))
    (collates : String → String → Bool) where
  -- A server in good order, after something was sent.
  abbrev Sends : Server → Dispatched → Type 0
  Sends s x =
      (sent : Sending) × (s' : Server) × (x ≡ some (sent, s'))
      × IsHealthy format parse_standard collates s'
      × Fits s s' sent

  sent_as_is :
      (sent : Sending) (s : Server)
      → IsHealthy format parse_standard collates s
      → Fits s s sent
      → Sends s (some (sent, s))
  sent_as_is sent s h fits = (sent, s, refl, h, fits)

  responded-Sends :
      (q : Incoming) (x : String) (request : Incoming → String → Request) (now : Time) (s : Server)
      → IsHealthy format parse_standard collates s
      → Sends s (responded (serve format parse_standard collates (request q x) now s))
  responded-Sends q x request now s h =
      let (r, s', e, k, published) =
        serve_lem format parse_standard collates (request q x) now s h in
      rw e (response r, s', refl, k, published)

  call-Sends :
      (t : Target) (q : Incoming) (x : String) (now : Time) (s : Server)
      → IsHealthy format parse_standard collates s
      → Sends s (call format parse_standard collates t q x now s)
  unfolding call
  call-Sends health q x now s h = sent_as_is healthy s h refl
  call-Sends stream q x now s h = (
    streaming _,
    _,
    refl,
    record { db = h.db; hub = subscribe-IsSound s.hub h.hub },
    (refl, refl),
  )
  call-Sends (calls request) q x now s h = responded-Sends q x request now s h

  refused-Sends :
      (x : Option Response) (s : Server) (next : Dispatched)
      → IsHealthy format parse_standard collates s
      → Sends s next
      → Sends s (unless_refused x s next)
  refused-Sends none s next h sends = sends
  refused-Sends (some refusal) s next h sends = sent_as_is (response refusal) s h (inr refl)

  reach-Sends :
      (key : String) (r : Route) (q : Incoming) (x : String) (now : Time) (s : Server)
      → IsHealthy format parse_standard collates s
      → Sends s (reach format parse_standard collates key r q x now s)
  unfolding reach
  reach-Sends key r q x now s h =
      let ran = call-Sends r.target q x now s h in
      elim (Bool-cases r.keyed) [
        | inl keyed ↦
            rw keyed (refused-Sends (require_api_key key q.authorization q.token) s _ h ran)
        | inr free ↦ rw free ran
      ]

  module _ (is_asset : String → Bool) (index_html : Option String) where
    taken-Sends :
        (key : String) (r : Option Route) (q : Incoming) (x : String) (now : Time) (s : Server)
        → IsHealthy format parse_standard collates s
        → Sends s (taken format parse_standard collates is_asset index_html key r q x now s)
    taken-Sends key none q x now s h = sent_as_is (page _) s h refl
    taken-Sends key (some r) q x now s h = reach-Sends key r q x now s h

    follow-Sends :
        (key : String) (f : Found) (q : Incoming) (now : Time) (s : Server)
        → IsHealthy format parse_standard collates s
        → Sends s (follow format parse_standard collates is_asset index_html key f q now s)
    follow-Sends key no_route q now s h = sent_as_is (page _) s h refl
    follow-Sends key (redirection target) q now s h = sent_as_is (redirected target) s h refl
    follow-Sends key (found i x) q now s h = taken-Sends key (route_at i routes) q x now s h

    -- A request to a server in good order does not panic and leaves it in good order, with whatever
    -- method, path and key, whatever route gin finds for it, and whatever the outcomes of its
    -- statements. The answer of a handler with a status from 300 up, or the 401, leaves the hub as it
    -- was, a stream has the new subscription and no more, and any other answer leaves all as it was.
    pub dispatch-Sends :
        (find : List Route → String → String → Found) (key : String) (q : Incoming) (now : Time)
        (s : Server)
        → IsHealthy format parse_standard collates s
        → (sent : Sending) × (s' : Server) × (dispatch format parse_standard collates is_asset
              index_html find key q now s
            ≡ some (sent, s'))
          × IsHealthy format parse_standard collates s'
          × Fits s s' sent
    unfolding dispatch
    dispatch-Sends find key q now s h = follow-Sends key (find routes q.method q.path) q now s h
