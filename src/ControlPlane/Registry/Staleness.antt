-- ===== src/ControlPlane/Registry/Staleness.antt =====
-- How old an answer of the handler registry can be.
use multi_agent_langgraph.Base.{
  ℕ, ◌-◌, ◌<◌, ◌≡◌, ◌⊎◌, inl, inr, refl, arith, String, false, Option, none, some, List, [], ◌∷◌,
  Result, ok, raise, Bool-cases, Option-cases, In, first, later, Result-cases, string_key, ◌≢◌,
  Bool, ◌∙◌,
}
use multi_agent_langgraph.Base.Dict.{Dict, lookup}
use multi_agent_langgraph.Github.Json.{Fields}
use multi_agent_langgraph.ControlPlane.Graph.{RouteHandlerRef, HandlerKind}
use multi_agent_langgraph.ControlPlane.Tables.{Tables}
use multi_agent_langgraph.ControlPlane.Registry.{
  Registry, new, cache_stale, invalidate, load_active_handlers, resolve, resolve_subscribed,
  ensure_subscription, cached_is,
}

-- What happens to a registry: a name is resolved at a time, on the tables of that time, or a
-- broadcast arrives.
pub data Event : Type 0 where
  resolved : String → ℕ → Tables → Event
  announced : Option String → Event

module _ (model_validate : Fields → Result (List RouteHandlerRef)) where
  abbrev kept : {A : Type 0} → Registry → Result (A × Registry) → Registry
  kept registry (raise error) = registry
  kept registry (ok (answer, new_registry)) = new_registry

  unfoldable pub react : Event → Registry → Registry
  react (resolved name now tables) registry =
      kept registry (resolve model_validate name now tables registry)
  react (announced id) registry = invalidate id registry

  unfoldable pub react_all : List Event → Registry → Registry
  react_all [] registry = registry
  react_all (event ∷ events) registry = react event (react_all events registry)

  -- What is cached was loaded by one of the events, the latest of which stands first.
  pub data Loaded (events : List Event) (registry : Registry) : Type 0 where
    empty : registry.cached_snapshot_id ≡ none → Loaded events registry
    loaded :
        (name : String) (now : ℕ) (tables : Tables) (id : String)
        → In (resolved name now tables) events
        → load_active_handlers model_validate tables ≡ ok (id, registry.cached_handlers)
        → registry.cache_loaded_at ≡ now
        → Loaded events registry

  more :
      (event : Event) (events : List Event) (registry : Registry)
      → Loaded events registry
      → Loaded (event ∷ events) registry
  more event events registry (empty e) = empty e
  more event events registry (loaded name now tables id m l t) =
      loaded name now tables id (later m) l t

  invalidate-Loaded :
      (id : Option String) (events : List Event) (registry : Registry)
      → Loaded events registry
      → Loaded events (invalidate id registry)
  unfolding invalidate
  invalidate-Loaded none events registry l = empty refl
  invalidate-Loaded (some id) events registry l =
      elim (Bool-cases (cached_is id registry.cached_snapshot_id)) [
        | inl e ↦ rw e l
        | inr e ↦ rw e (empty refl)
      ]

  fresh_answer :
      (name : String) (now : ℕ) (tables : Tables) (registry after : Registry)
      (answer : Option HandlerKind)
      → resolve_subscribed model_validate name now tables registry ≡ ok (answer, after)
      → (cache_stale now registry ≡ false)
          × (after ≡ registry)
          × (answer ≡ lookup name registry.cached_handlers)
        ⊎ ((id : String) × (load_active_handlers model_validate tables
              ≡ ok (id, after.cached_handlers))
            × (after.cache_loaded_at ≡ now)
            × (answer ≡ lookup name after.cached_handlers))
  unfolding resolve_subscribed
  fresh_answer name now tables registry after answer h =
      elim (Bool-cases (cache_stale now registry)) [
        | inr e ↦ inl (e, ground (arith, e), ground (arith, e))
        | inl e ↦ elim (Result-cases (load_active_handlers model_validate tables)) [
          | inr (error, l) ↦ ground (arith, e, l)
          | inl ((id, handlers), l) ↦
              inr (id, ground (arith, e, l), ground (arith, e, l), ground (arith, e, l))
        ]
      ]

  ensure_subscription-Loaded :
      (events : List Event) (registry : Registry)
      → Loaded events registry
      → Loaded events (ensure_subscription registry)
  unfolding ensure_subscription
  ensure_subscription-Loaded events registry (empty e) = empty e
  ensure_subscription-Loaded events registry (loaded name now tables id m l t) =
      loaded name now tables id m l t

  react-Loaded :
      (event : Event) (events : List Event) (registry : Registry)
      → Loaded events registry
      → Loaded (event ∷ events) (react event registry)
  unfolding react resolve
  react-Loaded (announced id) events registry l =
      more (announced id) events (invalidate id registry) (invalidate-Loaded id events registry l)
  react-Loaded (resolved name now tables) events registry l =
      elim (Result-cases (resolve model_validate name now tables registry)) [
        | inr (error, e) ↦ rw e (more (resolved name now tables) events registry l)
        | inl ((answer, after), e) ↦
            rw e
              (elim (fresh_answer name now tables (ensure_subscription registry) after answer e) [
                | inl (f, same, a) ↦ rw same (
                    more (resolved name now tables) events (ensure_subscription registry)
                      (ensure_subscription-Loaded events registry l))
                | inr (id, h, t, a) ↦ loaded name now tables id first h t
              ])
      ]

  react_all-Loaded :
      (broadcaster : Bool) (ttl : ℕ) (events : List Event)
      → Loaded events (react_all events (new broadcaster ttl))
  unfolding react_all new
  react_all-Loaded broadcaster ttl [] = empty refl
  react_all-Loaded broadcaster ttl (event ∷ events) =
      react-Loaded event events (react_all events (new broadcaster ttl))
        (react_all-Loaded broadcaster ttl events)

  react-ttl :
      (event : Event) (registry : Registry)
      → (react event registry).cache_ttl_seconds ≡ registry.cache_ttl_seconds
  unfolding react invalidate resolve resolve_subscribed ensure_subscription
  react-ttl (announced none) registry = refl
  react-ttl (announced (some id)) registry = ground arith
  react-ttl (resolved name now tables) registry =
      elim (Result-cases (load_active_handlers model_validate tables)) [
        | inr (error, l) ↦ ground (arith, l)
        | inl ((id, handlers), l) ↦ ground (arith, l)
      ]

  react_all-ttl :
      (broadcaster : Bool) (ttl : ℕ) (events : List Event)
      → (react_all events (new broadcaster ttl)).cache_ttl_seconds ≡ ttl
  unfolding react_all new
  react_all-ttl broadcaster ttl [] = refl
  react_all-ttl broadcaster ttl (event ∷ events) = ground (
    arith,
    react-ttl event (react_all events (new broadcaster ttl)),
    react_all-ttl broadcaster ttl events,
  )

  subscribed-ttl :
      (registry : Registry)
      → (ensure_subscription registry).cache_ttl_seconds ≡ registry.cache_ttl_seconds
  unfolding ensure_subscription
  subscribed-ttl registry = refl

  fresh_since :
      (now : ℕ) (registry : Registry)
      → cache_stale now registry ≡ false
      → now - registry.cache_loaded_at < registry.cache_ttl_seconds
  unfolding cache_stale
  fresh_since now registry h = elim (Option-cases registry.cached_snapshot_id) [
    | inl e ↦ ground (arith, e)
    | inr (id, e) ↦ ground (arith, e)
  ]

  not_empty :
      (now : ℕ) (registry : Registry)
      → cache_stale now registry ≡ false
      → registry.cached_snapshot_id ≢ none
  unfolding cache_stale
  not_empty now registry h e = ground (arith, e)

  -- Where an answer comes from: the handlers of the snapshot that was active at an event.
  pub record IsAnswer (events : List Event) (name : String) (now ttl : ℕ)
      (answer : Option HandlerKind) : Type 0 where
    pub asked : String
    pub at_time : ℕ
    pub at_tables : Tables
    pub id : String
    pub handlers : Dict String HandlerKind
    pub is_event : In (resolved asked at_time at_tables) events
    pub is_load : load_active_handlers model_validate at_tables ≡ ok (id, handlers)
    pub is_lookup : answer ≡ lookup name handlers
    pub is_recent : (at_time ≡ now) ⊎ (now - at_time < ttl)

  cached-IsAnswer :
      (ttl : ℕ) (events : List Event) (name : String) (now : ℕ) (registry : Registry)
      → cache_stale now registry ≡ false
      → registry.cache_ttl_seconds ≡ ttl
      → Loaded events registry
      → IsAnswer events name now ttl (lookup name registry.cached_handlers)
  cached-IsAnswer ttl events name now registry f t (empty e) = elim (not_empty now registry f e) [ ]
  cached-IsAnswer ttl events name now registry f t (loaded asked then tables id m l u) = record {
    asked = asked;
    at_time = then;
    at_tables = tables;
    id = id;
    handlers = registry.cached_handlers;
    is_event = m;
    is_load = l;
    is_lookup = refl;
    is_recent = inr (ground (arith, fresh_since now registry f, t, u));
  }

  -- Whatever was resolved and announced before, an answer of the handler registry is that of the
  -- snapshot that was active at this call or at a call less than the time to live ago.
  pub resolve-IsAnswer :
      (broadcaster : Bool) (ttl : ℕ) (events : List Event) (name : String) (now : ℕ)
      (tables : Tables) (answer : Option HandlerKind) (after : Registry)
      → resolve model_validate name now tables (react_all events (new broadcaster ttl))
        ≡ ok (answer, after)
      → IsAnswer (resolved name now tables ∷ events) name now ttl answer
  unfolding resolve
  resolve-IsAnswer broadcaster ttl events name now tables answer after h =
      let start = react_all events (new broadcaster ttl) in
      let before = ensure_subscription start in
      elim (fresh_answer name now tables before after answer h) [
        | inl (f, same, a) ↦ rw a (
            cached-IsAnswer ttl (resolved name now tables ∷ events) name now before f
              (subscribed-ttl start ∙ react_all-ttl broadcaster ttl events)
              (more (resolved name now tables) events before (
                ensure_subscription-Loaded events start (react_all-Loaded broadcaster ttl events))))
        | inr (id, l, t, a) ↦ record {
          asked = name;
          at_time = now;
          at_tables = tables;
          id = id;
          handlers = after.cached_handlers;
          is_event = first;
          is_load = l;
          is_lookup = a;
          is_recent = inl refl;
        }
      ]
