-- ===== src/Api/Total.antt =====
-- crates/server/src/http.rs, http/dashboard.rs: the router answers every request; the handler of the
-- dashboard's state, which expects a dashboard, is reached only where there is one.
use zkboost.Prelude.{
  ◌≡◌, refl, sym, ap, subst, List, [], ◌∷◌, Text, Bool, true, false, some, is_some, Option, All,
  Option-cases, Bool-cases, inl, inr,
}
use zkboost.Payload.{Hash256, Bytes}
use zkboost.Events.{Json}
use zkboost.External.{External}
use zkboost.Lru.{LruCache}
use zkboost.Proof.{Key}
use zkboost.Zkvm.{Backends}
use zkboost.Dashboard.{HistoricalBlock}
use zkboost.Http.{Ssz}
use zkboost.Api.{Wire, Method, get, post, head, other, Request}
use zkboost.Api.Router.{
  Endpoint, post_requests, get_requests, get_proofs, post_verifications, get_types, health, metrics,
  dashboard, dashboard_state, dashboard_events, Routes, routes, target, Target, endpoint,
  method_not_allowed, fallback, allowed, is_method,
}
use zkboost.Api.Serve.{
  AppState, Pages, Reply, answer_method, router, handle, handle_target, get_dashboard_state,
}
use zkboost.Dashboard.Service.{DashboardState}

abbrev needs_dashboard : Endpoint → Bool
needs_dashboard dashboard_state = true
needs_dashboard post_requests = false
needs_dashboard get_requests = false
needs_dashboard get_proofs = false
needs_dashboard post_verifications = false
needs_dashboard get_types = false
needs_dashboard health = false
needs_dashboard metrics = false
needs_dashboard dashboard = false
needs_dashboard dashboard_events = false

-- A target whose handler does not need the dashboard.
abbrev IsFree : Target → Type 0
IsFree (endpoint e values) = needs_dashboard e ≡ false
IsFree method_not_allowed = Unit
IsFree fallback = Unit

abbrev FreeMethods : List (Method × Endpoint) → Type 0
FreeMethods = All (λ m. needs_dashboard m.1 ≡ false)

allowed-IsFree :
    (m : Method) (methods : List (Method × Endpoint)) (values : List Text)
    → FreeMethods methods
    → IsFree (allowed m methods values)
allowed-IsFree m [] values h = tt
allowed-IsFree m ((n, e) ∷ methods) values h = elim (Bool-cases (is_method n m)) [
  | inl f ↦ rw f h.0
  | inr f ↦ rw f (allowed-IsFree m methods values h.1)
]

module _ {x : External} {b : Backends x} (wire : Wire b) where
  target-IsFree :
      (rs : Routes) (m : Method) (path : Text)
      → All (λ r. FreeMethods r.1) rs
      → IsFree (target wire rs m path)
  unfolding target
  target-IsFree [] m path h = tt
  target-IsFree ((template, methods) ∷ rest) m path h =
      elim (Option-cases (wire.matches template path)) [
        | inl f ↦ rw (target, f) (target-IsFree rest m path h.1)
        | inr (values, f) ↦ rw (target, f) (allowed-IsFree m methods values h.0)
      ]

  routes-IsFree : (m : Method) (path : Text) → IsFree (target wire (routes false) m path)
  unfolding routes
  routes-IsFree m path =
      target-IsFree (routes false) m path (
        (refl, (refl, tt)),
        ((refl, tt), ((refl, tt), ((refl, tt), ((refl, tt), ((refl, tt), tt))))),
      )

module _ (x : External) (b : Backends x) (proofs : LruCache Key Bytes)
    (blocks : LruCache Hash256 (HistoricalBlock x.Seconds)) (wire : Wire b) (json : Json)
    (ssz : Ssz x) (pages : Pages x b proofs blocks) where
  Answers : Option (Reply x b proofs blocks) → Type 0
  Answers m = (r : Reply x b proofs blocks) × (m ≡ some r)

  handle-free :
      (state : AppState x b proofs blocks) (request : Request) (e : Endpoint) (values : List Text)
      → needs_dashboard e ≡ false
      → Answers (handle x b proofs blocks wire json ssz pages state request e values)
  unfolding handle Answers
  handle-free state request dashboard_state values h = absurd (cc)
  handle-free state request post_requests values h = (_, refl)
  handle-free state request get_requests values h = (_, refl)
  handle-free state request get_proofs values h = (_, refl)
  handle-free state request post_verifications values h = (_, refl)
  handle-free state request get_types values h = (_, refl)
  handle-free state request health values h = (_, refl)
  handle-free state request metrics values h = (_, refl)
  handle-free state request dashboard values h = (_, refl)
  handle-free state request dashboard_events values h = (_, refl)

  handle-dashboard :
      (state : AppState x b proofs blocks) (request : Request) (e : Endpoint) (values : List Text)
      (d : DashboardState x blocks)
      → state.dashboard ≡ some d
      → Answers (handle x b proofs blocks wire json ssz pages state request e values)
  unfolding handle get_dashboard_state Answers
  handle-dashboard state request dashboard_state values d h = rw (get_dashboard_state, h) (_, refl)
  handle-dashboard state request post_requests values d h = (_, refl)
  handle-dashboard state request get_requests values d h = (_, refl)
  handle-dashboard state request get_proofs values d h = (_, refl)
  handle-dashboard state request post_verifications values d h = (_, refl)
  handle-dashboard state request get_types values d h = (_, refl)
  handle-dashboard state request health values d h = (_, refl)
  handle-dashboard state request metrics values d h = (_, refl)
  handle-dashboard state request dashboard values d h = (_, refl)
  handle-dashboard state request dashboard_events values d h = (_, refl)

  handle_target-free :
      (state : AppState x b proofs blocks) (request : Request) (t : Target)
      → IsFree t
      → Answers (handle_target x b proofs blocks wire json ssz pages state request t)
  unfolding handle_target Answers
  handle_target-free state request (endpoint e values) h = handle-free state request e values h
  handle_target-free state request method_not_allowed h = (_, refl)
  handle_target-free state request fallback h = (_, refl)

  handle_target-dashboard :
      (state : AppState x b proofs blocks) (request : Request) (t : Target)
      (d : DashboardState x blocks)
      → state.dashboard ≡ some d
      → Answers (handle_target x b proofs blocks wire json ssz pages state request t)
  unfolding handle_target Answers
  handle_target-dashboard state request (endpoint e values) d h =
      handle-dashboard state request e values d h
  handle_target-dashboard state request method_not_allowed d h = (_, refl)
  handle_target-dashboard state request fallback d h = (_, refl)

  answer_method-Answers :
      (m : Method) (r : Option (Reply x b proofs blocks))
      → Answers r
      → Answers (answer_method x b proofs blocks wire json ssz pages m r)
  unfolding Answers
  answer_method-Answers head r (a, e) = rw e (_, refl)
  answer_method-Answers get r h = h
  answer_method-Answers post r h = h
  answer_method-Answers other r h = h

  -- Every request is answered: no handler of a route meets a panic, whether there is a dashboard or
  -- not.
  pub router_total :
      (state : AppState x b proofs blocks) (request : Request)
      → (r : Reply x b proofs blocks) × (router x b proofs blocks wire json ssz pages state request
          ≡ some r)
  unfolding router Answers
  router_total state request =
      answer_method-Answers request.method _ (elim (Option-cases state.dashboard) [
        | inl e ↦
            let free = routes-IsFree wire request.method request.url.path in
            handle_target-free state request _ (
              subst (λ d. IsFree (target wire (routes d) request.method request.url.path))
                (sym (ap is_some e)) free)
        | inr (d, e) ↦ handle_target-dashboard state request _ d e
      ])
