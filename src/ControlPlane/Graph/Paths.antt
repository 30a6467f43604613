-- ===== src/ControlPlane/Graph/Paths.antt =====
-- `GraphConfigValidator._paths_to_target` of control_plane/graph.py against the routes of the graph.
use multi_agent_langgraph.Base.{
  ℕ, suc, ◌≤◌, ◌<◌, ◌≡◌, ◌≢◌, ◌↔◌, refl, sym, zero, arith, subst, String, Bool, true, false, ◌||◌,
  some, List, [], ◌∷◌, ◌++◌, ◌==◌, string_key, contains, contains-In, In-contains, In, first, later,
  In-append, length, any, count_if, Bool-cases, inl, inr,
}
use multi_agent_langgraph.Base.Dict.{lookup}
use multi_agent_langgraph.ControlPlane.Graph.{
  GraphEdgeConfig, adjacency_of, neighbours, Found, walk_each, walk, paths_to_target,
}
use multi_agent_langgraph.ControlPlane.Graph.Routes.{
  is_edge, contains-neighbours, Route, arrive, step, is_new, unvisited, fewer_by_one,
}

In-left {ℓ} : {A : Type ℓ} {a : A} (xs ys : List A) → In a xs → In a (xs ++ ys)
In-left [] ys m = elim m [ ]
In-left (x ∷ xs) ys first = first
In-left (x ∷ xs) ys (later m) = later (In-left xs ys m)

In-right {ℓ} : {A : Type ℓ} {a : A} (xs ys : List A) → In a ys → In a (xs ++ ys)
In-right [] ys m = m
In-right (x ∷ xs) ys m = later (In-right xs ys m)

abbrev blocked : String → List String → Bool
blocked next path = next == "END" || contains next path

module _ (edges : List GraphEdgeConfig) (target : String) where
  -- A search that found the paths that have the property, and no others.
  record IsExact (P : List String → Type 0) (found : Found) : Type 0 where
    paths : List (List String)
    returns : found ≡ some paths
    sound : (p : List String) → In p paths → P p
    complete : (p : List String) → P p → In p paths

  -- A route by way of one of the nodes.
  record IsVia (nodes path whole : List String) : Type 0 where
    next : String
    member : In next nodes
    free : blocked next path ≡ false
    route : Route edges target next (path ++ next ∷ []) whole

  IsVia-later :
      (n : String) (nodes path p : List String) → IsVia nodes path p → IsVia (n ∷ nodes) path p
  IsVia-later n nodes path p v = record {
    next = v.next;
    member = later v.member;
    free = v.free;
    route = v.route;
  }

  IsVia-blocked :
      (n : String) (nodes path p : List String)
      → blocked n path ≡ true
      → (next : String) → In next (n ∷ nodes)
      → blocked next path ≡ false
      → Route edges target next (path ++ next ∷ []) p
      → IsVia nodes path p
  IsVia-blocked n nodes path p b next first f r = cc
  IsVia-blocked n nodes path p b next (later m) f r = record {
    next = next;
    member = m;
    free = f;
    route = r;
  }

  In-found :
      (n : String) (nodes path p : List String) (found more : List (List String))
      → (Route edges target n (path ++ n ∷ []) p → In p found)
      → (IsVia nodes path p → In p more)
      → (next : String) → In next (n ∷ nodes)
      → blocked next path ≡ false
      → Route edges target next (path ++ next ∷ []) p
      → In p (found ++ more)
  In-found n nodes path p found more f g next first b r = In-left found more (f r)
  In-found n nodes path p found more f g next (later m) b r =
      In-right found more (g (record { next = next; member = m; free = b; route = r }))

  walk_each-IsExact :
      (walk_from : String → List String → Found) (nodes path : List String)
      → ((next : String)
          → In next nodes
          → blocked next path ≡ false
          → IsExact
              (Route edges target next (path ++ next ∷ []))
              (walk_from next (path ++ next ∷ [])))
      → IsExact (IsVia nodes path) (walk_each walk_from nodes path)
  unfolding walk_each
  walk_each-IsExact walk_from [] path f = record {
    paths = [];
    returns = refl;
    sound = λ p m. elim m [ ];
    complete = λ p v. elim v.member [ ];
  }
  walk_each-IsExact walk_from (n ∷ nodes) path f =
      let rest = walk_each-IsExact walk_from nodes path (λ next m. f next (later m)) in
      elim (Bool-cases (blocked n path)) [
        | inl b ↦ record {
          paths = rest.paths;
          returns = rw b rest.returns;
          sound = λ p m. IsVia-later n nodes path p (rest.sound p m);
          complete = λ p v.
              rest.complete p (IsVia-blocked n nodes path p b v.next v.member v.free v.route);
        }
        | inr b ↦
            let head = f n first b in
            record {
              paths = head.paths ++ rest.paths;
              returns = rw (b, head.returns, rest.returns);
              sound = λ p m. elim (In-append p head.paths rest.paths m) [
                | inl l ↦ record { next = n; member = first; free = b; route = head.sound p l }
                | inr r ↦ IsVia-later n nodes path p (rest.sound p r)
              ];
              complete = λ p v.
                  In-found n nodes path p head.paths rest.paths (head.complete p) (rest.complete p)
                    v.next v.member v.free v.route;
            }
      ]

  abbrev next_nodes : String → List String
  next_nodes current = neighbours (adjacency_of edges []) current

  In-next_nodes :
      (current next : String)
      → In next (next_nodes current)
      → any (is_edge current next) edges ≡ true
  unfolding contains lookup
  In-next_nodes current next m =
      ground
        (arith, contains-neighbours current next edges [], contains-In next (next_nodes current) m)

  next_nodes-In :
      (current next : String)
      → any (is_edge current next) edges ≡ true
      → In next (next_nodes current)
  unfolding contains lookup
  next_nodes-In current next h =
      In-contains next (next_nodes current)
        (ground (arith, contains-neighbours current next edges []))

  Route-arrived :
      (current : String) (path p : List String)
      → current ≡ target
      → Route edges target current path p
      → In p (path ∷ [])
  Route-arrived current path p e arrive = first
  Route-arrived current path p e (step n h f r) = absurd (n e)

  Route-IsVia :
      (current : String) (path p : List String)
      → current ≢ target
      → Route edges target current path p
      → IsVia (next_nodes current) path p
  Route-IsVia current path p n arrive = absurd (n refl)
  Route-IsVia current path p n (step {next = next} d h f r) = record {
    next = next;
    member = next_nodes-In current next h;
    free = f;
    route = r;
  }

  In-single :
      (current : String) (path p : List String)
      → target ≡ current
      → In p (path ∷ [])
      → Route edges target current path p
  In-single current path p e first = subst (λ c. Route edges target c path path) e arrive
  In-single current path p e (later m) = elim m [ ]

  walk-IsExact :
      (fuel : ℕ) (current : String) (path : List String)
      → unvisited edges target path < fuel
      → IsExact
          (Route edges target current path)
          (walk (adjacency_of edges []) target fuel current path)
  unfolding walk
  walk-IsExact zero current path h = absurd (omega arith)
  walk-IsExact (suc fuel) current path h = elim (Bool-cases (current == target)) [
    | inl y ↦
        let e = (string_key.beq_iff current target).0 y in
        record {
          paths = path ∷ [];
          returns = rw y;
          sound = λ p m. In-single current path p (sym e) m;
          complete = λ p r. Route-arrived current path p e r;
        }
    | inr n ↦
        let apart : current ≢ target =
          λ e. absurd (ground (arith, string_key.beq_iff current target)) in
        let each =
          walk_each-IsExact (walk (adjacency_of edges []) target fuel) (next_nodes current) path
            (λ next m b. walk-IsExact fuel next (path ++ next ∷ []) (
              ground
                (arith, fewer_by_one path next current edges (In-next_nodes current next m)))) in
        record {
          paths = each.paths;
          returns = rw n each.returns;
          sound = λ p m.
              let v = each.sound p m in
              step apart (In-next_nodes current v.next v.member) v.free v.route;
          complete = λ p r. each.complete p (Route-IsVia current path p apart r);
        }
  ]

count_if-le {ℓ} : {A : Type ℓ} (p : A → Bool) (xs : List A) → count_if p xs ≤ length xs
unfolding count_if
count_if-le p [] = omega arith
count_if-le p (x ∷ xs) = ground (arith, count_if-le p xs)

-- The search for paths to a node always ends, and what it finds are exactly the routes from `START`:
-- the paths along the edges that reach the node, pass no node twice and do not pass `END`.
pub paths_to_target-Route :
    (edges : List GraphEdgeConfig) (target : String)
    → (paths : List (List String)) × (paths_to_target edges target ≡ some paths)
      × ((p : List String) → In p paths ↔ Route edges target "START" [] p)
unfolding paths_to_target
paths_to_target-Route edges target =
    let bound = count_if-le (is_new edges target []) edges in
    let found = walk-IsExact edges target (suc (length edges)) "START" [] (omega (arith, bound)) in
    (found.paths, found.returns, λ p. (found.sound p, found.complete p))
