-- ===== src/Planner/Settled.antt =====
-- What a discovery enters in the ledger stays there, and each branch it has visited is skipped the next time
-- (quality_api/discovery.py, `_discover_one` and `record_planned`).
use diff_graph.Base.{
  All, All_map, Bool, Bool-cases, List, String, [], any, any-append, any_mono, arith, decimal,
  eq_iff, false, inl, inr, refl, subst, true, ℕ, ◌-◌, ◌<>◌, ◌∷◌, ◌≡◌, ◌⊎◌,
}
use diff_graph.Planner.{
  AutoPlanConfig, Host, PlannedCommit, Planner, already_planned, has_recent_plan, is_entry,
  is_recent, lineages_of, no_texts, or_text, record_planned, resolve_scenarios, same_key,
}
use diff_graph.Planner.Cells.{create_plan}
use diff_graph.Planner.Discover.{
  discover_all, discover_lineages, discover_one, is_skipped, plan_commit, stamp, visit_lineage,
}
use diff_graph.Queue.Rows.{seconds}

-- What the ledger says stays said.
abbrev pub Grows : Planner → Planner → Type 0
Grows s t =
    (p : PlannedCommit → Bool) → any p s.planned_commits ≡ true → any p t.planned_commits ≡ true

record_planned-Grows : (e : PlannedCommit) (s : Planner) → Grows s (record_planned false e s)
unfolding record_planned
record_planned-Grows e s p h = elim (Bool-cases (any (same_key e) s.planned_commits)) [
  | inl k ↦ rw k h
  | inr k ↦ rw k (ground (arith, h, any-append p s.planned_commits (e ∷ [])))
]

record_planned_lem :
    (e : PlannedCommit) (s : Planner)
    → already_planned e.config_id e.lineage e.sha (record_planned false e s) ≡ true
unfolding record_planned already_planned
record_planned_lem e s = elim (Bool-cases (any (same_key e) s.planned_commits)) [
  | inl k ↦ rw k (
      any_mono (same_key e) (is_entry e.config_id e.lineage e.sha) (λ q h. ground (arith, h))
        s.planned_commits k)
  | inr k ↦
      let own = is_entry e.config_id e.lineage e.sha in
      let joined = any-append own s.planned_commits (e ∷ []) in
      rw k (ground (arith, joined, eq_iff e.lineage e.lineage, eq_iff e.sha e.sha))
]

module _ (host : Host) where
  is_skipped-Grows :
      (c : AutoPlanConfig) (b : String × String) (now : ℕ) (s t : Planner)
      → Grows s t
      → is_skipped host c b now s ≡ true
      → is_skipped host c b now t ≡ true
  unfolding is_skipped already_planned has_recent_plan
  is_skipped-Grows c b now s t grows h =
      let entered = grows (is_entry c.id b.0 b.1) in
      let recent = grows (is_recent c.id b.0 (now - seconds c.min_gap_seconds)) in
      grown h entered recent
    where
      grown :
          (is_skipped host c b now s ≡ true)
          → (already_planned c.id b.0 b.1 s ≡ true → already_planned c.id b.0 b.1 t ≡ true)
          → (has_recent_plan c.id b.0 (now - seconds c.min_gap_seconds) s ≡ true
              → has_recent_plan c.id b.0 (now - seconds c.min_gap_seconds) t ≡ true)
          → is_skipped host c b now t ≡ true
      grown k entered recent = ground (arith, k, entered, recent)

  visit_lineage-Grows :
      (c : AutoPlanConfig) (scenarios : List String) (now : ℕ) (b : String × String) (s : Planner)
      → Grows s (visit_lineage host c scenarios now b s).1
  unfolding visit_lineage plan_commit
  visit_lineage-Grows c scenarios now b s p h = elim (Bool-cases (is_skipped host c b now s)) [
    | inl k ↦ rw k h
    | inr k ↦ rw k (record_planned-Grows _ _ p h)
  ]

  discover_lineages-Grows :
      (c : AutoPlanConfig) (scenarios : List String) (now : ℕ) (bs : List (String × String))
      (s : Planner)
      → Grows s (discover_lineages host c scenarios now bs s).1
  unfolding discover_lineages
  discover_lineages-Grows c scenarios now [] s p h = h
  discover_lineages-Grows c scenarios now (b ∷ bs) s p h =
      discover_lineages-Grows c scenarios now bs _ p (visit_lineage-Grows c scenarios now b s p h)

  discover_one-Grows :
      (c : AutoPlanConfig) (now : ℕ) (s : Planner) → Grows s (discover_one host c now s).1
  unfolding discover_one
  discover_one-Grows c now s p h = elim (Bool-cases (no_texts (resolve_scenarios host c))) [
    | inl k ↦ rw k h
    | inr k ↦ rw k (discover_lineages-Grows c _ now _ s p h)
  ]

  discover_all-Grows :
      (cs : List AutoPlanConfig) (now : ℕ) (s : Planner) → Grows s (discover_all host cs now s).1
  unfolding discover_all
  discover_all-Grows [] now s p h = h
  discover_all-Grows (c ∷ cs) now s p h =
      discover_all-Grows cs now _ p (discover_one-Grows c now s p h)

  -- A debounce lets go as time passes; so the later call comes at the same instant, or there is none.
  abbrev pub IsSteady : ℕ → ℕ → AutoPlanConfig → Type 0
  IsSteady now later c = (c.min_gap_seconds ≡ 0) ⊎ (now ≡ later)

  -- Each branch of the configuration is skipped.
  abbrev pub IsSettled : ℕ → Planner → AutoPlanConfig → Type 0
  IsSettled now s c =
      no_texts (resolve_scenarios host c) ≡ false
      → All (λ b. is_skipped host c b now s ≡ true) (lineages_of host c)

  still_skipped :
      (c : AutoPlanConfig) (now later : ℕ) (b : String × String) (s : Planner)
      → IsSteady now later c
      → is_skipped host c b now s ≡ true
      → is_skipped host c b later s ≡ true
  unfolding is_skipped
  still_skipped c now later b s (inl e) k = ground (arith, e, k)
  still_skipped c now later b s (inr e) k = subst (λ t. is_skipped host c b t s ≡ true) e k

  abbrev entry_of : AutoPlanConfig → String × String → ℕ → ℕ → PlannedCommit
  entry_of c b plan now = record {
    config_id = c.id;
    lineage = b.0;
    sha = b.1;
    plan_kind = or_text c.name ("config-" <> decimal c.id);
    plan_id = plan;
    planned_at = now;
  }

  plan_commit-skipped :
      (c : AutoPlanConfig) (scenarios : List String) (now later : ℕ) (b : String × String)
      (s : Planner)
      → is_skipped host c b later
          (plan_commit host false c (record { lineage = b.0; sha = b.1 }) scenarios now s).1
        ≡ true
  unfolding is_skipped plan_commit
  plan_commit-skipped c scenarios now later b s =
      let entered =
        record_planned_lem
          (entry_of c b
            (create_plan host c (record { lineage = b.0; sha = b.1 }) scenarios now s.queue).0.0
            now)
          (record s {
            queue =
                (create_plan host c (record { lineage = b.0; sha = b.1 }) scenarios now s.queue).1;
          }) in
      rw entered refl

  visit_lineage-skipped :
      (c : AutoPlanConfig) (scenarios : List String) (now later : ℕ) (b : String × String)
      (s : Planner)
      → IsSteady now later c
      → is_skipped host c b later (visit_lineage host c scenarios now b s).1 ≡ true
  unfolding visit_lineage
  visit_lineage-skipped c scenarios now later b s steady =
      elim (Bool-cases (is_skipped host c b now s)) [
        | inl k ↦ rw k (still_skipped c now later b s steady k)
        | inr k ↦ rw k (plan_commit-skipped c scenarios now later b s)
      ]

  discover_lineages-skipped :
      (c : AutoPlanConfig) (scenarios : List String) (now later : ℕ) (bs : List (String × String))
      (s : Planner)
      → IsSteady now later c
      → All
          (λ b. is_skipped host c b later (discover_lineages host c scenarios now bs s).1 ≡ true)
          bs
  unfolding discover_lineages
  discover_lineages-skipped c scenarios now later [] s steady = tt
  discover_lineages-skipped c scenarios now later (b ∷ bs) s steady = (
    is_skipped-Grows c b later _ _ (discover_lineages-Grows c scenarios now bs _)
        (visit_lineage-skipped c scenarios now later b s steady),
    discover_lineages-skipped c scenarios now later bs _ steady,
  )

  discover_one-IsSettled :
      (c : AutoPlanConfig) (now later : ℕ) (s : Planner)
      → IsSteady now later c
      → IsSettled later (discover_one host c now s).1 c
  unfolding discover_one
  discover_one-IsSettled c now later s steady some_scenario =
      rw some_scenario (discover_lineages-skipped c _ now later _ s steady)

  pub IsSettled-Grows :
      (c : AutoPlanConfig) (now : ℕ) (s t : Planner)
      → Grows s t
      → IsSettled now s c
      → IsSettled now t c
  IsSettled-Grows c now s t grows settled some_scenario =
      All_map _ (λ b h. is_skipped-Grows c b now s t grows h) (settled some_scenario)

  pub discover_all-IsSettled :
      (cs : List AutoPlanConfig) (now later : ℕ) (s : Planner)
      → All (IsSteady now later) cs
      → All (IsSettled later (discover_all host cs now s).1) cs
  unfolding discover_all
  discover_all-IsSettled [] now later s steady = tt
  discover_all-IsSettled (c ∷ cs) now later s steady = (
    IsSettled-Grows c later _ _
        (discover_all-Grows cs now (stamp host c.id now (discover_one host c now s).1))
        (discover_one-IsSettled c now later s steady.0),
    discover_all-IsSettled cs now later _ steady.1,
  )
