-- ===== src/Operations/StatusPage/Worst.antt =====
-- What the public status page says of the components.
use multi_agent_langgraph.Base.{
  ℕ, ◌≤◌, ◌≡◌, ◌⊎◌, inl, inr, refl, arith, ltb, String, Bool, true, false, List, [], ◌∷◌, In, first,
  later, if◌then◌else◌, Bool-cases, not, all, all-holds,
}
use multi_agent_langgraph.Base.Dict.{Dict}
use multi_agent_langgraph.Operations.Health.{Health, snapshot as health_snapshot}
use multi_agent_langgraph.Operations.StatusPage.{
  PublicComponentStatus, major_outage, PublicStatusComponent, worst_from, order, snapshot,
  adapter_component, api_status, other_components, worker_component, provider_routing_component,
  operational, degraded, partial_outage,
}

-- The status that the loop goes on with.
abbrev chosen : PublicComponentStatus → PublicStatusComponent → PublicComponentStatus
chosen s c = if ltb (order s) (order c.status) then c.status else s

chosen-above :
    (s : PublicComponentStatus) (c : PublicStatusComponent)
    → (order s ≤ order (chosen s c)) × (order c.status ≤ order (chosen s c))
chosen-above s c = elim (Bool-cases (ltb (order s) (order c.status))) [
  | inl e ↦ rw e (ground (arith, e), ground (arith, e))
  | inr e ↦ rw e (ground (arith, e), ground (arith, e))
]

worst_from-above :
    (s : PublicComponentStatus) (cs : List PublicStatusComponent)
    → order s ≤ order (worst_from s cs)
unfolding worst_from
worst_from-above s [] = omega arith
worst_from-above s (c ∷ cs) = omega (arith, chosen-above s c, worst_from-above (chosen s c) cs)

worst_from-member :
    (s : PublicComponentStatus) (cs : List PublicStatusComponent) (c : PublicStatusComponent)
    → In c cs
    → order c.status ≤ order (worst_from s cs)
unfolding worst_from
worst_from-member s [] c m = elim m [ ]
worst_from-member s (b ∷ cs) c first =
    omega (arith, chosen-above s c, worst_from-above (chosen s c) cs)
worst_from-member s (b ∷ cs) c (later m) = worst_from-member (chosen s b) cs c m

worst_from-In :
    (x : PublicStatusComponent) (cs : List PublicStatusComponent) (c : PublicStatusComponent)
    → In c (x ∷ cs)
    → order c.status ≤ order (worst_from x.status cs)
worst_from-In x cs c first = worst_from-above c.status cs
worst_from-In x cs c (later m) = worst_from-member x.status cs c m

worst_from-one :
    (s : PublicComponentStatus) (cs : List PublicStatusComponent)
    → (worst_from s cs ≡ s) ⊎ ((c : PublicStatusComponent) × In c cs × (worst_from s cs ≡ c.status))
unfolding worst_from
worst_from-one s [] = inl refl
worst_from-one s (b ∷ cs) = elim (Bool-cases (ltb (order s) (order b.status))) [
  | inl e ↦ rw e (elim (worst_from-one b.status cs) [
    | inl h ↦ inr (b, first, h)
    | inr (c, m, h) ↦ inr (c, later m, h)
  ])
  | inr e ↦
      rw e (elim (worst_from-one s cs) [ inl h ↦ inl h | inr (c, m, h) ↦ inr (c, later m, h) ])
]

-- The status of the page is that of one of its components, and no component is worse.
pub snapshot-worst :
    (health : Health) (metrics : Dict String ℕ) (now : ℕ)
    → ((c : PublicStatusComponent) × In c (snapshot health metrics now).components
        × ((snapshot health metrics now).status ≡ c.status))
      × ((c : PublicStatusComponent)
          → In c (snapshot health metrics now).components
          → order c.status ≤ order (snapshot health metrics now).status)
unfolding snapshot
snapshot-worst health metrics now = (
  elim (worst_from-one (api_status health) (other_components health metrics)) [
    | inl h ↦ (_, first, h)
    | inr (c, m, h) ↦ (c, later m, h)
  ],
  λ c m. worst_from-In _ (other_components health metrics) c m,
)

abbrev is_major : PublicComponentStatus → Bool
is_major major_outage = true
is_major operational = false
is_major degraded = false
is_major partial_outage = false

quiet_worker : (metrics : Dict String ℕ) → is_major (worker_component metrics).status ≡ false
unfolding worker_component
quiet_worker metrics = ground arith

quiet_routing :
    (metrics : Dict String ℕ) → is_major (provider_routing_component metrics).status ≡ false
unfolding provider_routing_component
quiet_routing metrics = ground arith

quiet_adapter :
    (name : String) (ready : Bool) → is_major (adapter_component name ready ready).status ≡ false
unfolding adapter_component
quiet_adapter name ready = ground arith

abbrev quiet : PublicStatusComponent → Bool
quiet c = not (is_major c.status)

others_quiet :
    (health : Health) (metrics : Dict String ℕ) → all quiet (other_components health metrics) ≡ true
unfolding other_components health_snapshot all
others_quiet health metrics = ground (
  arith,
  quiet_worker metrics,
  quiet_routing metrics,
  quiet_adapter "database" health.database_ready,
  quiet_adapter "redis" health.redis_ready,
)

-- The status page reports a major outage of the API at most: never one of the database or of Redis,
-- since the health service calls an adapter configured exactly when it is healthy.
pub major_outage_only_api :
    (health : Health) (metrics : Dict String ℕ) (now : ℕ) (c : PublicStatusComponent)
    → In c (snapshot health metrics now).components
    → c.status ≡ major_outage
    → c.component ≡ "api"
unfolding snapshot
major_outage_only_api health metrics now c first h = refl
major_outage_only_api health metrics now c (later m) h =
    let q = all-holds quiet (other_components health metrics) c (others_quiet health metrics) m in
    ground (arith, q, h)
