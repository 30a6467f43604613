-- ===== src/ControlPlane/Registry.antt =====
-- persistence/control_plane.py: `SnapshotDrivenHandlerRegistry`, a cache of the handlers of the
-- active snapshot; `_publish_activation`, which tells the registries; and the choice of stores.
-- `GraphConfigVersion.model_validate`, pydantic's, is a parameter.
pub mod Staleness
use multi_agent_langgraph.Base.{
  ℕ, ◌-◌, leb, String, Bool, true, false, Option, none, some, List, [], ◌∷◌, ◌==◌, string_key,
  if◌then◌else◌, ◌||◌, ◌&&◌, Result, ok, raise, ◌>>=◌, ◌>>◌, key_error, runtime_error, value_error,
  ◌<>◌, not,
}
use multi_agent_langgraph.Base.Dict.{Dict, lookup, index, insert}
use multi_agent_langgraph.Github.Json.{Fields}
use multi_agent_langgraph.ControlPlane.Graph.{RouteHandlerRef, HandlerKind}
use multi_agent_langgraph.ControlPlane.Tables.{Tables, StateRow, SnapshotRow, VersionRow}

-- `_cached_snapshot_id`, `_cached_handlers`, `_cache_loaded_at` and `_subscription_started`; whether
-- there is a broadcaster, and `_cache_ttl_seconds`, stay.
pub record Registry : Type 0 where
  pub has_broadcaster : Bool
  pub subscription_started : Bool
  pub cached_snapshot_id : Option String
  pub cached_handlers : Dict String HandlerKind
  pub cache_loaded_at : ℕ
  pub cache_ttl_seconds : ℕ

unfoldable pub new : Bool → ℕ → Registry
new has_broadcaster cache_ttl_seconds = record {
  has_broadcaster = has_broadcaster;
  subscription_started = false;
  cached_snapshot_id = none;
  cached_handlers = [];
  cache_loaded_at = 0;
  cache_ttl_seconds = cache_ttl_seconds;
}

abbrev stale_at : Option String → ℕ → Registry → Bool
stale_at none now registry = true
stale_at (some id) now registry = leb registry.cache_ttl_seconds (now - registry.cache_loaded_at)

unfoldable pub cache_stale : ℕ → Registry → Bool
cache_stale now registry = stale_at registry.cached_snapshot_id now registry

abbrev none_active : {A : Type 0} → Result A
none_active = raise (key_error "No active snapshot is available.")

abbrev or_none_active : {A : Type 0} → Option A → Result A
or_none_active none = none_active
or_none_active (some a) = ok a

-- `{ref.handler_name: ref.handler_kind for ref in graph.route_handlers}`
unfoldable pub handlers_of :
    List RouteHandlerRef → Dict String HandlerKind → Dict String HandlerKind
handlers_of [] handlers = handlers
handlers_of (ref ∷ refs) handlers =
    handlers_of refs (insert ref.handler_name ref.handler_kind handlers)

abbrev pub cached_is : String → Option String → Bool
cached_is id none = false
cached_is id (some cached) = id == cached

unfoldable pub invalidate : Option String → Registry → Registry
invalidate none registry = record registry {
  cached_snapshot_id = none;
  cached_handlers = [];
  cache_loaded_at = 0;
}
invalidate (some id) registry =
    if cached_is id registry.cached_snapshot_id
    then registry
    else record registry { cached_snapshot_id = none; cached_handlers = []; cache_loaded_at = 0 }

unfoldable pub ensure_subscription : Registry → Registry
ensure_subscription registry = record registry {
  subscription_started = registry.has_broadcaster || registry.subscription_started;
}

module _ (model_validate : Fields → Result (List RouteHandlerRef)) where
  -- The join of the state, the active snapshot and its graph version.
  unfoldable pub load_active_handlers : Tables → Result (String × Dict String HandlerKind)
  load_active_handlers tables = do
    state ← or_none_active (lookup "global" tables.control_plane_state)
    id ← or_none_active state.active_snapshot_id
    row ← or_none_active (lookup id tables.snapshots)
    version ← or_none_active (lookup row.graph_version_id tables.graph_versions)
    refs ← model_validate version.payload
    ok (id, handlers_of refs [])

  unfoldable pub resolve_subscribed :
      String → ℕ → Tables → Registry → Result (Option HandlerKind × Registry)
  resolve_subscribed handler_name now tables registry =
      if not (cache_stale now registry)
      then ok (lookup handler_name registry.cached_handlers, registry)
      else do
        loaded ← load_active_handlers tables
        ok (
          lookup handler_name loaded.1,
          record registry {
            cached_snapshot_id = some loaded.0;
            cached_handlers = loaded.1;
            cache_loaded_at = now;
          },
        )

  unfoldable pub resolve : String → ℕ → Tables → Registry → Result (Option HandlerKind × Registry)
  resolve handler_name now tables registry =
      resolve_subscribed handler_name now tables (ensure_subscription registry)

-- `_publish_activation` of a store, as a registry sees it: it is told where the store has a
-- broadcaster, Redis can be reached and the registry has subscribed.
unfoldable pub publish_activation : Bool → Bool → String → Registry → Registry
publish_activation has_broadcaster reachable snapshot_id registry =
    if has_broadcaster
    then (if reachable && registry.subscription_started
        then invalidate (some snapshot_id) registry
        else registry)
    else registry

pub data StoreMode : Type 0 where
  legacy postgres : StoreMode

-- `ControlPlaneSettings.from_env`
unfoldable pub mode_from_env : Option String → Result StoreMode
mode_from_env none = ok legacy
mode_from_env (some mode) =
    if mode == "legacy"
    then ok legacy
    else if mode == "postgres"
    then ok postgres
    else raise (
        value_error
          ("BACKEND_CONTROL_PLANE_STORE_MODE must be 'legacy' or 'postgres', got '" <> mode <> "'"))

-- What `build_control_plane_store` builds: the legacy store that it is given, or a Postgres one.
unfoldable pub build_control_plane_store :
    {S : Type 0} → StoreMode → Option String → Option S → (String → S) → Result S
build_control_plane_store legacy database_url (some store) connect = ok store
build_control_plane_store legacy database_url none connect =
    raise (runtime_error "Legacy control-plane mode requires an in-memory test double.")
build_control_plane_store postgres none legacy_store connect =
    raise
      (runtime_error "BACKEND_CONTROL_PLANE_STORE_MODE=postgres requires a configured database URL")
build_control_plane_store postgres (some url) legacy_store connect =
    if url == ""
    then raise (
        runtime_error
          "BACKEND_CONTROL_PLANE_STORE_MODE=postgres requires a configured database URL")
    else ok (connect url)

unfoldable pub build_handler_registry :
    {S : Type 0} → StoreMode → Option String → Option S → (String → S) → Result S
build_handler_registry legacy database_url (some registry) connect = ok registry
build_handler_registry legacy database_url none connect =
    raise (runtime_error "Legacy handler-registry mode requires an in-memory test double.")
build_handler_registry postgres none legacy_registry connect =
    raise
      (runtime_error "BACKEND_CONTROL_PLANE_STORE_MODE=postgres requires a configured database URL")
build_handler_registry postgres (some url) legacy_registry connect =
    if url == ""
    then raise (
        runtime_error
          "BACKEND_CONTROL_PLANE_STORE_MODE=postgres requires a configured database URL")
    else ok (connect url)
