-- ===== src/Platform/Queue/Fairness.antt =====
-- Which job the dispatcher selects.
use native.Mathlib.Nat.{le_of_mul-le-mul_right, mul-le-mul_right}
use multi_agent_langgraph.Base.{
  ℕ, ◌*◌, ◌≤◌, ◌≡◌, arith, String, Bool, true, false, not, ◌&&◌, ◌||◌, Option, none, some, List, [],
  ◌∷◌, ltb, In, first, In-select, select-In, later, Bool-cases, inl, inr, select, string_key,
}
use multi_agent_langgraph.Base.Dict.{Dict}
use multi_agent_langgraph.Platform.Queue.{
  QueuedJob, WeightedFairDispatcher, in_flight, at_least_one, smallest, enqueued_before, has_room,
  is_starved, share_before, from_eligible, select_next_job,
}

-- `before` orders the jobs, with ties.
record IsOrder (before : QueuedJob → QueuedJob → Bool) : Type 0 where
  asym : (a b : QueuedJob) → before a b ≡ true → before b a ≡ false
  trans : (a b c : QueuedJob) → before b a ≡ false → before c b ≡ false → before c a ≡ false

module _ (before : QueuedJob → QueuedJob → Bool) (o : IsOrder before) where
  smallest-In :
      (best : QueuedJob) (jobs : List QueuedJob) → In (smallest before best jobs) (best ∷ jobs)
  unfolding smallest
  smallest-In best [] = first
  smallest-In best (job ∷ jobs) = elim (Bool-cases (before job best)) [
    | inl p ↦ rw p (later (smallest-In job jobs))
    | inr p ↦ rw p (widen (smallest-In best jobs))
  ]
    where
      widen : {a : QueuedJob} → In a (best ∷ jobs) → In a (best ∷ job ∷ jobs)
      widen first = first
      widen (later m) = later (later m)

  smallest-le :
      (best : QueuedJob) (jobs : List QueuedJob) (j : QueuedJob)
      → In j (best ∷ jobs)
      → before j (smallest before best jobs) ≡ false
  unfolding smallest
  smallest-le best [] j first = ground (arith, o.asym best best)
  smallest-le best [] j (later m) = elim m [ ]
  smallest-le best (job ∷ jobs) j m =
      let of_job = λ (i : QueuedJob) (n : In i (job ∷ jobs)). smallest-le job jobs i n in
      let of_best = λ (i : QueuedJob) (n : In i (best ∷ jobs)). smallest-le best jobs i n in
      elim (Bool-cases (before job best)) [
        | inl p ↦ rw p (by_job of_job p j m)
        | inr p ↦ rw p (by_best of_best p j m)
      ]
    where
      IsLeast : QueuedJob → Type 0
      IsLeast b = (i : QueuedJob) → In i (b ∷ jobs) → before i (smallest before b jobs) ≡ false

      by_job :
          IsLeast job
          → before job best ≡ true
          → (k : QueuedJob) → In k (best ∷ job ∷ jobs)
          → before k (smallest before job jobs) ≡ false
      by_job l p k first = o.trans _ job best (l job first) (o.asym job best p)
      by_job l p k (later n) = l k n

      by_best :
          IsLeast best
          → before job best ≡ false
          → (k : QueuedJob) → In k (best ∷ job ∷ jobs)
          → before k (smallest before best jobs) ≡ false
      by_best l p k first = l best first
      by_best l p k (later first) = o.trans _ best job (l best first) p
      by_best l p k (later (later n)) = l k (later n)

enqueued_before-IsOrder : IsOrder enqueued_before
enqueued_before-IsOrder = record { asym = λ a b h. ground arith; trans = λ a b c h k. ground arith }

-- Fractions with the same positive denominator compare as their numerators do.
cross-le : (f v g w h x : ℕ) → 1 ≤ w → f * w ≤ g * v → g * x ≤ h * w → f * x ≤ h * v
cross-le f v g w h x one p q =
    le_of_mul-le-mul_right (omega (arith, mul-le-mul_right x p, mul-le-mul_right v q)) one

-- The lexicographic order of a fraction and a time, on the cross products.
lex : ℕ → ℕ → ℕ → ℕ → Bool
lex xy yx ex ey = ltb xy yx || (not (ltb yx xy) && ltb ex ey)

lex_trans :
    (ab ba bc cb ac ca ea eb ec : ℕ)
    → (ab ≤ ba → bc ≤ cb → ac ≤ ca)
    → (ca ≤ ac → ab ≤ ba → cb ≤ bc)
    → (bc ≤ cb → ca ≤ ac → ba ≤ ab)
    → lex ba ab eb ea ≡ false
    → lex cb bc ec eb ≡ false
    → lex ca ac ec ea ≡ false
unfolding lex
lex_trans ab ba bc cb ac ca ea eb ec f g k h i = ground arith

module _ (dispatcher : WeightedFairDispatcher) (in_flight_by_tenant : Dict String ℕ) (now : ℕ) where
  abbrev busy : QueuedJob → ℕ
  busy = in_flight in_flight_by_tenant

  abbrev weight_of : QueuedJob → ℕ
  weight_of job = at_least_one job.weight

  share-le_trans :
      (a b c : QueuedJob)
      → busy a * weight_of b ≤ busy b * weight_of a
      → busy b * weight_of c ≤ busy c * weight_of b
      → busy a * weight_of c ≤ busy c * weight_of a
  share-le_trans a b c =
      cross-le (busy a) (weight_of a) (busy b) (weight_of b) (busy c) (weight_of c) (ground arith)

  share_before-IsOrder : IsOrder (share_before dispatcher in_flight_by_tenant now)
  unfolding lex
  share_before-IsOrder = record {
    asym = λ a b h. ground arith;
    trans = λ a b c h k.
        lex_trans _ _ _ _ _ _ a.enqueued_at b.enqueued_at c.enqueued_at (share-le_trans a b c)
          (share-le_trans c a b) (share-le_trans b c a) h k;
  }

  -- A job that the dispatcher may pick.
  abbrev pub IsEligible : List QueuedJob → QueuedJob → Type 0
  IsEligible jobs job = In job jobs × (has_room dispatcher in_flight_by_tenant now job ≡ true)

  -- The fair choice among the jobs of the tenants that have room. Starved jobs go first, the one that
  -- waits longest before the others; where none is starved, a job of the smallest share is picked, and
  -- of those the one that waits longest.
  pub record IsFair (jobs : List QueuedJob) (job : QueuedJob) : Type 0 where
    pub eligible : IsEligible jobs job
    pub starved_first :
        (other : QueuedJob)
        → IsEligible jobs other
        → is_starved dispatcher in_flight_by_tenant now other ≡ true
        → (is_starved dispatcher in_flight_by_tenant now job ≡ true)
          × (job.enqueued_at ≤ other.enqueued_at)
    pub least_share :
        is_starved dispatcher in_flight_by_tenant now job ≡ false
        → (other : QueuedJob) → IsEligible jobs other
        → share_before dispatcher in_flight_by_tenant now other job ≡ false

  -- Either a job was selected fairly, or there is none whose tenant has room.
  pub data IsSelected (jobs : List QueuedJob) : Option QueuedJob → Type 0 where
    nothing :
        ((job : QueuedJob) → In job jobs → has_room dispatcher in_flight_by_tenant now job ≡ false)
        → IsSelected jobs none
    fair : {job : QueuedJob} → IsFair jobs job → IsSelected jobs (some job)

  module _ (jobs : List QueuedJob) where
    abbrev starved_of : QueuedJob → Bool
    starved_of = is_starved dispatcher in_flight_by_tenant now

    from_eligible-IsSelected :
        (eligible starved : List QueuedJob)
        → ((j : QueuedJob) → In j eligible → IsEligible jobs j)
        → ((j : QueuedJob) → IsEligible jobs j → In j eligible)
        → ((j : QueuedJob) → In j starved → In j eligible × (starved_of j ≡ true))
        → ((j : QueuedJob) → In j eligible → starved_of j ≡ true → In j starved)
        → IsSelected jobs (from_eligible dispatcher in_flight_by_tenant now eligible starved)
    from_eligible-IsSelected [] starved out into s_out s_into = nothing (λ job m.
        elim (Bool-cases (has_room dispatcher in_flight_by_tenant now job)) [
          | inl y ↦ elim (into job (m, y)) [ ]
          | inr n ↦ n
        ])
    from_eligible-IsSelected (e ∷ es) [] out into s_out s_into =
        let before = share_before dispatcher in_flight_by_tenant now in
        fair (record {
          eligible = out _ (smallest-In before share_before-IsOrder e es);
          starved_first = λ other m h. elim (s_into other (into other m) h) [ ];
          least_share =
              λ h other m. smallest-le before share_before-IsOrder e es other (into other m);
        })
    from_eligible-IsSelected (e ∷ es) (s ∷ ss) out into s_out s_into =
        let picked = s_out _ (smallest-In enqueued_before enqueued_before-IsOrder s ss) in
        fair (record {
          eligible = out _ picked.0;
          starved_first = λ other m h.
              let longest =
                smallest-le enqueued_before enqueued_before-IsOrder s ss other
                  (s_into other (into other m) h) in
              (picked.1, ground (arith, longest));
          least_share = λ h. absurd (true_false picked.1 h);
        })
      where
        true_false : {b : Bool} → b ≡ true → b ≡ false → ⊥
        true_false y n = cc

  -- The dispatcher selects no job exactly when no job's tenant has room; otherwise it selects fairly: a
  -- starved job before any other, the longest waiting of them, and else a job of the smallest share of
  -- its tenant, the longest waiting of those.
  pub select_next_job-IsSelected :
      (jobs : List QueuedJob)
      → IsSelected jobs (select_next_job dispatcher in_flight_by_tenant now jobs)
  unfolding select_next_job
  select_next_job-IsSelected jobs =
      let room = has_room dispatcher in_flight_by_tenant now in
      let late = is_starved dispatcher in_flight_by_tenant now in
      from_eligible-IsSelected jobs (select room jobs) (select late (select room jobs))
        (λ j m. In-select room j jobs m) (λ j e. select-In room j jobs e.0 e.1)
        (λ j m. In-select late j (select room jobs) m)
        (λ j m h. select-In late j (select room jobs) m h)
