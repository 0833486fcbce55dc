-- ===== src/Children/SpawnTests.antt =====
-- A dispatcher that spawns a reviewer.
use diff_graph.Base.{
  List, String, [], arith, false, if◌then◌else◌, none, refl, some, str_eq, ◌&&◌, ◌∷◌, ◌≡◌, ◌≤◌,
}
use diff_graph.Children.Spawning.{
  SpawnConfig, SpawnSpec, Spawner, child_of, meta_agent_spawn, resolved_data, spawns_child, spec_of,
}
use diff_graph.Children.Spawning.Depth.{Spawned, Spawned-bounds}
use diff_graph.Children.Spawning.Scope.{resolved_data_inherits}
use diff_graph.Dict.{get?, has_key}
use diff_graph.Json.{Dict, is_truthy, str}
use diff_graph.Tools.Tests.{libs}

abbrev lower : String → String
lower s = s

abbrev reviewer : SpawnConfig
reviewer = record { name = "reviewer"; max_depth = 1 }

abbrev configs : List (String × SpawnConfig)
configs = ("reviewer", reviewer) ∷ []

abbrev dispatcher : Spawner
dispatcher = record {
  config = record { name = "dispatcher"; max_depth = 3 };
  depth = 0;
  data_scope = ("focus", str "all") ∷ [];
}

abbrev call : Dict
call = ("agent", str "reviewer") ∷ ("focus", str "tests") ∷ []

abbrev spec : SpawnSpec
spec = spec_of libs lower "reviewer" call []

abbrev child : Spawner
child = child_of libs lower reviewer dispatcher spec

spawned_child : meta_agent_spawn libs lower [] configs dispatcher call ≡ spawns_child spec child
unfolding meta_agent_spawn get? diff_graph.Children.Spawning.resolve_agent_config
spawned_child = refl

Spawned-bounds_example : child.depth ≤ 3
Spawned-bounds_example =
    Spawned-bounds libs lower [] configs 3 dispatcher child tt (omega arith, tt) (omega arith) refl
      (Spawned.child_agent call spec Spawned.first_agent spawned_child)

no_focus : has_key "focus" spec.spec_data ≡ false
unfolding get?
no_focus = refl

resolved_data_inherits_example :
    get? "focus" (resolved_data libs lower dispatcher.data_scope spec) ≡ (
      if has_key "focus" dispatcher.data_scope
      then get? "focus" dispatcher.data_scope
      else if is_truthy spec.focus && str_eq "focus" "focus"
      then some spec.focus
      else none)
resolved_data_inherits_example =
    resolved_data_inherits libs lower dispatcher.data_scope spec "focus" no_focus
