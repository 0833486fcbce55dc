-- ===== src/Tools/MetaTests.antt =====
-- A registry with one tool that counts its calls.
use diff_graph.Base.{
  Bool, Bool-cases, String, [], any, arith, inl, inr, is_some, not, refl, some, str_eq, subst, true,
  ℕ, ◌&&◌, ◌+◌, ◌||◌, ◌∷◌, ◌≡◌, ◌≤◌,
}
use diff_graph.Dict.{get?}
use diff_graph.Json.{dict, str}
use diff_graph.Tools.{ToolDef, ToolRegistry, answered, get, has}
use diff_graph.Tools.Meta.{MetaTexts, call_meta_tool, is_member}
use diff_graph.Tools.Meta.Boundary.{KeepsRequired, call_meta_tool_keeps}
use diff_graph.Tools.Names.{Frontmatter, is_hidden, native_names}
use diff_graph.Tools.Names.Union.{names_or_none, native_names_lem, or_no_names}
use diff_graph.Tools.Tests.{libs}

abbrev counter : ToolDef ℕ
counter = record {
  ident = 0;
  name = "count";
  description = "counts";
  parameters = dict [];
  handler = λ args n. (answered (str "counted"), n + 1);
  signature = λ k. true;
  result_limit = 6000;
  is_builtin = true;
  cache = Bool.false;
}

abbrev counters : ToolRegistry ℕ
counters = record { tools = ("count", counter) ∷ []; arg_repair_handlers = [] }

abbrev words : MetaTexts
words = record { lower = λ s. s; quote = λ s. s; decode_error = λ s. s }

abbrev Above : ℕ → Type 0
Above n = 3 ≤ n

counters_keep :
    (n : String) (td : ToolDef ℕ)
    → is_member n ("count" ∷ []) ≡ true
    → get ℕ counters n ≡ some td
    → KeepsRequired ℕ Above libs words counters td
unfolding get?
counters_keep n td m found args s e h = elim (Bool-cases (str_eq "count" n)) [
  | inl q ↦
      let same : counter ≡ td = ground (arith, found, q) in
      subst (λ (t : ToolDef ℕ). Above (t.handler args s).1) same (omega (arith, h))
  | inr q ↦ absurd (ground (arith, found, q))
]

call_meta_tool_keeps_example :
    Above (call_meta_tool ℕ libs words counters ("count" ∷ []) (str "count") (dict []) 3).1
call_meta_tool_keeps_example =
    call_meta_tool_keeps ℕ Above libs words counters ("count" ∷ []) (str "count") (dict []) 3
      counters_keep (omega arith)

abbrev front : Frontmatter
front = record { extra_tools = []; tools = some ("count" ∷ []); is_meta = Bool.false }

native_names_lem_example :
    let names = native_names ℕ counters ("agent_spawn" ∷ []) front 2 2 in
    let wanted = or_no_names front.tools in
    (is_some names ≡ not (any (λ i. not (has ℕ counters i)) wanted))
    × (is_some names ≡ true
        → is_member "count" (names_or_none names) ≡ (
            ((is_member "count" ("agent_spawn" ∷ []) && has ℕ counters "count")
              || is_member "count" wanted)
            && not (is_hidden 2 2 "count")))
native_names_lem_example = native_names_lem ℕ counters ("agent_spawn" ∷ []) front 2 2 "count"

-- The name is not in the set.
refused_call : (call_meta_tool ℕ libs words counters [] (str "count") (dict []) 3).1 ≡ 3
unfolding call_meta_tool
refused_call = refl
