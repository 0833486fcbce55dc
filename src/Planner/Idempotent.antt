-- ===== src/Planner/Idempotent.antt =====
-- A second `discover` finds nothing left to plan.
use diff_graph.Base.{
  All, All_keep_if, All_map, All_map_of, All_of_keep_if, All_of_map, Bool-cases, List, Option,
  String, [], if◌then◌else◌, inl, inr, keep_if, map, none, refl, some, str_eq, subst, sym, true, ℕ,
  ◌∙◌, ◌∷◌, ◌≡◌,
}
use diff_graph.Planner.{
  AutoPlanConfig, Host, Planner, lineages_of, no_texts, record_planned, resolve_scenarios,
  row_to_config,
}
use diff_graph.Planner.Discover.{
  Created, discover, discover_all, discover_lineages, discover_one, is_skipped, plan_commit, stamp,
  visit_lineage,
}
use diff_graph.Planner.Settled.{IsSettled, IsSettled-Grows, IsSteady, discover_all-IsSettled}
use diff_graph.Table.Laws.{All-update}

module _ (host : Host) where
  -- Nothing is done for a settled configuration.
  discover_lineages_rest :
      (c : AutoPlanConfig) (scenarios : List String) (now : ℕ) (bs : List (String × String))
      (s : Planner)
      → All (λ b. is_skipped host c b now s ≡ true) bs
      → discover_lineages host c scenarios now bs s ≡ ([], s)
  unfolding discover_lineages visit_lineage
  discover_lineages_rest c scenarios now [] s h = refl
  discover_lineages_rest c scenarios now (b ∷ bs) s h =
      rw h.0 (rw (discover_lineages_rest c scenarios now bs s h.1) refl)

  discover_one_rest :
      (c : AutoPlanConfig) (now : ℕ) (s : Planner)
      → IsSettled host now s c
      → discover_one host c now s ≡ ([], s)
  unfolding discover_one
  discover_one_rest c now s settled = elim (Bool-cases (no_texts (resolve_scenarios host c))) [
    | inl k ↦ rw k refl
    | inr k ↦ rw k (discover_lineages_rest c _ now _ s (settled k))
  ]

  -- A run that plans nothing: no result, and the tables but for the stamps as they were.
  abbrev pub IsIdle : Planner → List Created × Planner → Type 0
  IsIdle s r = (r.0 ≡ []) × (r.1.queue ≡ s.queue) × (r.1.planned_commits ≡ s.planned_commits)

  discover_all-IsIdle :
      (cs : List AutoPlanConfig) (now : ℕ) (s : Planner)
      → All (IsSettled host now s) cs
      → IsIdle s (discover_all host cs now s)
  unfolding discover_all
  discover_all-IsIdle [] now s settled = (refl, refl, refl)
  discover_all-IsIdle (c ∷ cs) now s settled =
      let here = discover_one_rest c now s settled.0 in
      rw here (
        discover_all-IsIdle cs now (stamp host c.id now s)
          (All_map cs (λ d h. IsSettled-Grows host d now s _ (λ p k. k) h) settled.1))

  -- The configurations that the supervisor's call takes up.
  abbrev due : List AutoPlanConfig → List AutoPlanConfig
  due rows =
      keep_if (λ c. str_eq c.mode "auto")
        (map row_to_config (keep_if (λ c. if true then c.enabled else true) rows))

  abbrev IfAuto : (AutoPlanConfig → Type 0) → AutoPlanConfig → Type 0
  IfAuto P c = str_eq c.mode "auto" ≡ true → P c

  -- A row, if it is taken up, has the property.
  abbrev IfDue : (AutoPlanConfig → Type 0) → AutoPlanConfig → Type 0
  IfDue P row = (if true then row.enabled else true) ≡ true → IfAuto P (row_to_config row)

  rows_of_due :
      (P : AutoPlanConfig → Type 0) (rows : List AutoPlanConfig)
      → All P (due rows)
      → All (IfDue P) rows
  rows_of_due P rows h =
      All_of_keep_if (λ row. IfAuto P (row_to_config row)) _ rows
        (All_of_map (IfAuto P) row_to_config _ (All_of_keep_if P _ _ h))

  due_of_rows :
      (P : AutoPlanConfig → Type 0) (rows : List AutoPlanConfig)
      → All (IfDue P) rows
      → All P (due rows)
  due_of_rows P rows h = All_keep_if P _ _ (
      All_map_of (IfAuto P) row_to_config _
        (All_keep_if (λ row. IfAuto P (row_to_config row)) _ rows h))

  visit_lineage_configs :
      (c : AutoPlanConfig) (scenarios : List String) (now : ℕ) (b : String × String) (s : Planner)
      → (visit_lineage host c scenarios now b s).1.configs ≡ s.configs
  unfolding visit_lineage plan_commit record_planned
  visit_lineage_configs c scenarios now b s = elim (Bool-cases (is_skipped host c b now s)) [
    | inl k ↦ rw k refl
    | inr k ↦ rw k refl
  ]

  discover_lineages_configs :
      (c : AutoPlanConfig) (scenarios : List String) (now : ℕ) (bs : List (String × String))
      (s : Planner)
      → (discover_lineages host c scenarios now bs s).1.configs ≡ s.configs
  unfolding discover_lineages
  discover_lineages_configs c scenarios now [] s = refl
  discover_lineages_configs c scenarios now (b ∷ bs) s =
      discover_lineages_configs c scenarios now bs _ ∙ visit_lineage_configs c scenarios now b s

  discover_one_configs :
      (c : AutoPlanConfig) (now : ℕ) (s : Planner)
      → (discover_one host c now s).1.configs ≡ s.configs
  unfolding discover_one
  discover_one_configs c now s = elim (Bool-cases (no_texts (resolve_scenarios host c))) [
    | inl k ↦ rw k refl
    | inr k ↦ rw k (discover_lineages_configs c _ now _ s)
  ]

  -- A call changes nothing in a configuration but the stamp.
  discover_all_keeps :
      (P : AutoPlanConfig → Type 0)
      → ((c : AutoPlanConfig) (at : Option ℕ) → P c → P (record c { last_discover_at = at }))
      → (cs : List AutoPlanConfig) (now : ℕ) (s : Planner) → All P s.configs
      → All P (discover_all host cs now s).1.configs
  unfolding discover_all
  discover_all_keeps P keep [] now s h = h
  discover_all_keeps P keep (c ∷ cs) now s h =
      let same : All P (discover_one host c now s).1.configs =
        subst (All P) (sym (discover_one_configs c now s)) h in
      discover_all_keeps P keep cs now (stamp host c.id now (discover_one host c now s).1)
        (All-update _ _ _ (λ d _ k. keep d (some now) k) (λ d _ k. k) same)

  stamped :
      (now : ℕ) (s : Planner) (c : AutoPlanConfig) (at : Option ℕ)
      → IfDue (IsSettled host now s) c
      → IfDue (IsSettled host now s) (record c { last_discover_at = at })
  unfolding row_to_config is_skipped resolve_scenarios lineages_of
  stamped now s c at h = h

  due-IsSteady :
      (now later : ℕ) (rows : List AutoPlanConfig)
      → All (IsSteady host now later) rows
      → All (IsSteady host now later) (due rows)
  unfolding row_to_config
  due-IsSteady now later rows h = due_of_rows _ rows (All_map rows (λ c k _ _. k) h)

  -- A second call of the planner, where git and the files of the bench say the same, plans nothing and leaves the queue
  -- and the ledger as they are, if no configuration has a gap, or if the clock has not moved.
  pub discover_again :
      (now later : ℕ) (s : Planner)
      → All (IsSteady host now later) s.configs
      → IsIdle (discover host none now s).1 (discover host none later (discover host none now s).1)
  unfolding discover
  discover_again now later s steady =
      let first = discover host none now s in
      let settled =
        discover_all-IsSettled host (due s.configs) now later s
          (due-IsSteady now later s.configs steady) in
      let rows =
        discover_all_keeps (IfDue (IsSettled host later first.1)) (stamped later first.1)
          (due s.configs) now s (rows_of_due _ s.configs settled) in
      discover_all-IsIdle (due first.1.configs) later first.1 (due_of_rows _ first.1.configs rows)
