-- ===== src/Merge.antt =====
-- The merging of the results of parallel branches (orchestra/merge.py) without a model: the best confidence,
-- the union, and all of them. An item of an output is its JSON text with the title that the code reads from
-- it, `item.get("title", "")` of a dictionary and `str(item)` of anything else.
use diff_graph.Base.{
  Bool, List, Option, String, [], any, if◌then◌else◌, ltb, map, none, some, str_eq, ℕ, ◌++◌, ◌∷◌,
}
pub mod Union
pub mod Best
mod Tests

pub record Item : Type 0 where
  pub title : String
  pub json : String

-- An output is nothing, a list, a dictionary, or another value; of a dictionary the values count that are
-- lists, in the order of its keys, `none` for one that is no list.
pub data Output : Type 0 where
  no_output : Output
  list_output : List Item → Output
  dict_output : Item → List (Option (List Item)) → Output
  other_output : Item → Output

-- The fields of `AgentResult` that are read here; the confidence is that of the last reflection.
pub record BranchResult : Type 0 where
  pub agent_name : String
  pub confidence : Option String
  pub output : Output

-- The locals of `UnionMerge.merge`.
pub record Merging : Type 0 where
  pub all_items : List Item
  pub seen_titles : List String

abbrev pub is_seen : String → List String → Bool
is_seen title seen_titles = any (λ t. str_eq t title) seen_titles

abbrev pub add_item : Merging → Item → Merging
add_item m item = if is_seen item.title m.seen_titles then m else record {
  all_items = m.all_items ++ item ∷ [];
  seen_titles = m.seen_titles ++ item.title ∷ [];
}

abbrev pub add_items : Merging → List Item → Merging
add_items m [] = m
add_items m (item ∷ items) = add_items (add_item m item) items

-- `for v in output.values(): if isinstance(v, list): … break`, with its `else`.
abbrev pub add_fields : Merging → Item → List (Option (List Item)) → Merging
add_fields m whole [] = record m { all_items = m.all_items ++ whole ∷ [] }
add_fields m whole (some items ∷ fields) = add_items m items
add_fields m whole (none ∷ fields) = add_fields m whole fields

abbrev pub add_output : Merging → Output → Merging
add_output m no_output = m
add_output m (list_output items) = add_items m items
add_output m (dict_output whole fields) = add_fields m whole fields
add_output m (other_output whole) = record m { all_items = m.all_items ++ whole ∷ [] }

abbrev pub add_results : Merging → List BranchResult → Merging
add_results m [] = m
add_results m (r ∷ results) = add_results (add_output m r.output) results

abbrev pub nothing_merged : Merging
nothing_merged = record { all_items = []; seen_titles = [] }

-- `UnionMerge.merge`.
abbrev pub union_merge : List BranchResult → List Item
union_merge results = (add_results nothing_merged results).all_items

-- `conf_map`, in halves.
abbrev pub rank : String → ℕ
rank confidence =
    if str_eq confidence "medium" then 1 else if str_eq confidence "high" then 2 else 0

abbrev pub rank_of : Option String → ℕ
rank_of none = 0
rank_of (some confidence) = rank confidence

abbrev pub best_of : BranchResult → ℕ → List BranchResult → BranchResult
best_of best best_conf [] = best
best_of best best_conf (r ∷ results) =
    let next = best_of r (rank_of r.confidence) results in
    let same = best_of best best_conf results in
    if ltb best_conf (rank_of r.confidence) then next else same

-- `BestConfidenceMerge.merge`.
abbrev pub best_confidence_merge : List BranchResult → Output
best_confidence_merge [] = no_output
best_confidence_merge (r ∷ results) = (best_of r 0 (r ∷ results)).output

-- `RawMerge.merge`.
abbrev pub raw_merge : List BranchResult → List (String × Output)
raw_merge results = map (λ r. (r.agent_name, r.output)) results
