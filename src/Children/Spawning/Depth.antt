-- ===== src/Children/Spawning/Depth.antt =====
-- Spawning ends: no agent is deeper than the configurations allow.
use diff_graph.Base.{
  All, Bool-cases, List, Option, String, [], arith, inl, inr, leb, none, or_else-cases, refl, some,
  str_eq, subst, ℕ, ◌+◌, ◌∷◌, ◌≡◌, ◌≤◌,
}
use diff_graph.Children.Spawning.{
  SpawnConfig, SpawnSpec, Spawner, arg_or_blank, data_arg, max_depth_reached, meta_agent_spawn,
  resolve_agent_config, spawn_by, spawn_named, spawn_with, spawns_child,
}
use diff_graph.Dict.{get?}
use diff_graph.Json.{Dict, as_str}
use diff_graph.Tools.{Libraries}

abbrev pub IsWithin : ℕ → List (String × SpawnConfig) → Type 0
IsWithin limit configs = All (λ e. e.1.max_depth ≤ limit) configs

get_within :
    (limit : ℕ) (configs : List (String × SpawnConfig)) (name : String) (c : SpawnConfig)
    → IsWithin limit configs
    → get? name configs ≡ some c
    → c.max_depth ≤ limit
unfolding get?
get_within limit [] name c h e = cc
get_within limit ((n, d) ∷ configs) name c h e = elim (Bool-cases (str_eq n name)) [
  | inl k ↦
      let same : d ≡ c = ground (arith, e, k) in
      subst (λ (x : SpawnConfig). x.max_depth ≤ limit) same h.0
  | inr k ↦ get_within limit configs name c h.1 (rw k at e)
]

module _ (libs : Libraries) (lower : String → String)
    (agent_registry agent_configs : List (String × SpawnConfig)) where
  -- The agents of a run: the first one, and the children that calls of `agent_spawn` make.
  pub data Spawned (root : Spawner) : Spawner → Type 0 where
    first_agent : Spawned root root
    child_agent :
        {parent child : Spawner} (args : Dict) (spec : SpawnSpec)
        → Spawned root parent
        → meta_agent_spawn libs lower agent_registry agent_configs parent args
          ≡ spawns_child spec child
        → Spawned root child

  child_depth :
      (limit : ℕ) (parent : Spawner) (args : Dict) (spec : SpawnSpec) (child : Spawner)
      → IsWithin limit agent_registry
      → IsWithin limit agent_configs
      → meta_agent_spawn libs lower agent_registry agent_configs parent args
        ≡ spawns_child spec child
      → (child.depth ≡ parent.depth + 1)
        × (child.depth ≤ parent.config.max_depth)
        × (child.config.max_depth ≤ limit)
  unfolding meta_agent_spawn resolve_agent_config
  child_depth limit parent args spec child in_registry in_configs e =
      by_name (as_str (arg_or_blank "agent" args)) e
    where
      within :
          (name : String) (c : SpawnConfig)
          → resolve_agent_config agent_registry agent_configs name ≡ some c
          → c.max_depth ≤ limit
      within name c found =
          elim (or_else-cases (get? name agent_registry) (get? name agent_configs) c found) [
            | inl a ↦ get_within limit agent_registry name c in_registry a
            | inr b ↦ get_within limit agent_configs name c in_configs b
          ]

      by_data :
          (name : String) (c : SpawnConfig) (o : Option Dict)
          → c.max_depth ≤ limit
          → parent.depth + 1 ≤ parent.config.max_depth
          → spawn_with libs lower c parent name args o ≡ spawns_child spec child
          → (child.depth ≡ parent.depth + 1)
            × (child.depth ≤ parent.config.max_depth)
            × (child.config.max_depth ≤ limit)
      by_data name c none le deep e = cc
      by_data name c (some d) le deep e = ground (arith, e, le, deep)

      by_config :
          (name : String) (o : Option SpawnConfig)
          → resolve_agent_config agent_registry agent_configs name ≡ o
          → spawn_by libs lower o parent name args ≡ spawns_child spec child
          → (child.depth ≡ parent.depth + 1)
            × (child.depth ≤ parent.config.max_depth)
            × (child.config.max_depth ≤ limit)
      by_config name none found e = cc
      by_config name (some c) found e =
          elim (Bool-cases (leb parent.config.max_depth parent.depth)) [
            | inl k ↦ let never : max_depth_reached ≡ spawns_child spec child = rw k at e in cc
            | inr k ↦
                by_data name c (data_arg (get? "data" args)) (within name c found)
                  (ground (arith, k)) (rw k at e)
          ]

      by_name :
          (o : Option String)
          → spawn_named libs lower agent_registry agent_configs parent args o
            ≡ spawns_child spec child
          → (child.depth ≡ parent.depth + 1)
            × (child.depth ≤ parent.config.max_depth)
            × (child.config.max_depth ≤ limit)
      by_name none e = cc
      by_name (some name) e = by_config name _ refl e

  -- An agent that calls of `agent_spawn` lead to, from an agent at depth zero, has at most as many agents above it as the
  -- greatest `max_depth` of the first agent and of the configurations that names resolve to.
  pub Spawned-bounds :
      (limit : ℕ) (root a : Spawner)
      → IsWithin limit agent_registry
      → IsWithin limit agent_configs
      → root.config.max_depth ≤ limit
      → root.depth ≡ 0
      → Spawned root a
      → a.depth ≤ limit
  Spawned-bounds limit root a in_registry in_configs le start s = (both s).0
    where
      both : {b : Spawner} → Spawned root b → (b.depth ≤ limit) × (b.config.max_depth ≤ limit)
      both first_agent = (omega (arith, start), le)
      both (child_agent {parent} {child} args spec above e) =
          let (at, deep, within) =
            child_depth limit parent args spec child in_registry in_configs e in
          let (d, m) = both above in (omega (arith, deep, m), within)
