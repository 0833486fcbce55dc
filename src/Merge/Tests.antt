-- ===== src/Merge/Tests.antt =====
-- The merges of two branches.
use diff_graph.Base.{All, [], refl, some, true, ◌∷◌, ◌≡◌}
use diff_graph.Merge.{BranchResult, Item, is_seen, list_output, union_merge}
use diff_graph.Merge.Union.{Distinct, titles_of, union_merge-Distinct}

abbrev found : Item
found = record { title = "leak"; json = "{}" }

abbrev other : Item
other = record { title = "race"; json = "{}" }

abbrev first_branch : BranchResult
first_branch = record {
  agent_name = "a";
  confidence = some "low";
  output = list_output (found ∷ other ∷ []);
}

abbrev second_branch : BranchResult
second_branch = record {
  agent_name = "b";
  confidence = some "high";
  output = list_output (found ∷ []);
}

union_of_two : titles_of (union_merge (first_branch ∷ second_branch ∷ [])) ≡ "leak" ∷ "race" ∷ []
union_of_two = refl

union_merge-Distinct_example :
    Distinct (titles_of (union_merge (first_branch ∷ second_branch ∷ [])))
    × All
        (λ i. is_seen i.title (titles_of (union_merge (first_branch ∷ second_branch ∷ []))) ≡ true)
        (found ∷ other ∷ found ∷ [])
union_merge-Distinct_example =
    union_merge-Distinct (first_branch ∷ second_branch ∷ []) (refl, (refl, tt))
