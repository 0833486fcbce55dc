-- ===== src/Tools/Calls/Effects.antt =====
-- What the calls of a response may do to the handlers' world.
use diff_graph.Base.{
  All, All_of_mem, Bool, Bool-cases, List, Option, String, [], ap, arith, false, inl, inr, keep_if,
  length, none, refl, some, sym, true, ℕ, ◌∙◌, ◌∷◌, ◌≡◌,
}
use diff_graph.Dict.{get?, set_key}
use diff_graph.Json.{Json}
use diff_graph.Messages.{ToolCall}
use diff_graph.Tools.{Libraries, Memory, ToolDef, ToolRegistry, get}
use diff_graph.Tools.Calls.{
  CallReply, CallState, add_reply, dispatch_tools, dispatched, fails, handle_by, handle_each,
  handle_real, handle_response, handle_tool_call, is_dispatched, is_mocked, parse_args, result_of,
  says,
}
use diff_graph.Tools.Dispatch.{Keeps, dispatch, dispatch_keeps}
use diff_graph.Tools.Mocks.{
  MockEntry, ToolMocks, consume, consume_by, consume_ordinal, get_elem?, has, take_entry,
}
use diff_graph.Tools.Semantic.{Judge, SemanticConfig, or_default}
use mathlib.Core.Bool.{Bool-set}
use mathlib.Core.List.{Mem, Perm, mem-cons, not-mem-nil}
use mathlib.Core.List.Perm.{mem_iff}
use mathlib.Core.Logic.Or

-- A call that passes a test is one that passes it.
keep_if_holds {ℓ} :
    {A : Type ℓ} (p : A → Bool) (xs : List A) (a : A) → Mem a (keep_if p xs) → p a ≡ true
keep_if_holds p [] a m = absurd (not-mem-nil m)
keep_if_holds p (x ∷ xs) a m = elim (Bool-cases (p x)) [
  | inl e ↦
      let first : Mem a (x ∷ keep_if p xs) = rw e at m in
      mathlib.Core.Logic.Or.elim (Bool-set (p a) true) (mem-cons.0 first) (λ same. ap p same ∙ e)
        (keep_if_holds p xs a)
  | inr e ↦ keep_if_holds p xs a (rw e at m)
]

module _ (judge : Judge) (libs : Libraries) where
  -- A call of a mocked tool takes no tool away.
  take_has :
      (name tool : String) (entries : List MockEntry) (indices : List ℕ) (o : Option MockEntry)
      (mocks : ToolMocks judge)
      → has judge name (take_entry judge tool entries indices o mocks).1 ≡ has judge name mocks
  take_has name tool entries indices none mocks = refl
  take_has name tool entries indices (some e) mocks = refl

  ordinal_has :
      (name tool : String) (o : Option (List MockEntry)) (mocks : ToolMocks judge)
      → has judge name (consume_ordinal judge tool o mocks).1 ≡ has judge name mocks
  ordinal_has name tool none mocks = refl
  ordinal_has name tool (some []) mocks = refl
  ordinal_has name tool (some (e ∷ entries)) mocks =
      let indices = or_default judge [] (get? tool mocks.consumed) in
      take_has name tool (e ∷ entries) indices (get_elem? (length indices) (e ∷ entries)) mocks

  by_has :
      (name tool : String) (args : Json) (o : Option (SemanticConfig judge))
      (mocks : ToolMocks judge)
      → has judge name (consume_by judge libs tool args o mocks).1 ≡ has judge name mocks
  by_has name tool args (some cfg) mocks = refl
  by_has name tool args none mocks = ordinal_has name tool (get? tool mocks.by_tool) mocks

  pub has-consume :
      (name tool : String) (args : Json) (mocks : ToolMocks judge)
      → has judge name (consume judge libs tool args mocks).1 ≡ has judge name mocks
  unfolding consume
  has-consume name tool args mocks = by_has name tool args (get? tool mocks.semantic_by_tool) mocks

module _ (S : Type 0) (judge : Judge) (P : S → Type 0) (libs : Libraries)
    (registry : ToolRegistry S) (mocked : String → Bool)
    (keeps : (name : String) (td : ToolDef S)
      → mocked name ≡ false
      → get S registry name ≡ some td
      → Keeps S P libs td) where
  dispatch_tools_keeps :
      (ran : List ToolCall) (results : List (String × Json)) (memory : Memory S)
      → All (λ tc. mocked tc.name ≡ false) ran
      → P memory.world
      → P (dispatch_tools S libs registry ran results memory).1.world
  unfolding dispatch_tools
  dispatch_tools_keeps [] results memory free h = h
  dispatch_tools_keeps (tc ∷ ran) results memory free h =
      let args = parse_args libs tc.arguments in
      let (reply, after) = dispatch S libs registry tc.name args none memory in
      dispatch_tools_keeps ran (set_key tc.id (result_of S reply) results) after free.1 (
        dispatch_keeps S P libs registry tc.name args none memory (λ td. keeps tc.name td free.0) h)

  -- The world keeps what it has, and the mocks are those of the same tools.
  abbrev Holds : CallState S judge → Type 0
  Holds state =
      P state.memory.world × ((name : String) → is_mocked S judge name state.mocks ≡ mocked name)

  real_Holds :
      (tc : ToolCall) (o : Option Json) (mocks : Option (ToolMocks judge)) (memory : Memory S)
      → mocked tc.name ≡ false
      → Holds (record { mocks = mocks; memory = memory })
      → Holds (handle_real S judge libs registry tc o mocks memory).1
  real_Holds tc (some v) mocks memory free h = h
  real_Holds tc none mocks memory free h =
      let args = parse_args libs tc.arguments in
      (
        dispatch_keeps S P libs registry tc.name args (some tc.arguments) memory
            (λ td. keeps tc.name td free) h.0,
        h.1,
      )

  by_Holds :
      (results : List (String × Json)) (tc : ToolCall) (mocks : Option (ToolMocks judge))
      (memory : Memory S)
      → Holds (record { mocks = mocks; memory = memory })
      → Holds (handle_by S judge libs registry results tc mocks memory).1
  by_Holds results tc none memory h =
      real_Holds tc (get? tc.id results) none memory (sym (h.1 tc.name)) h
  by_Holds results tc (some mocks) memory h = elim (Bool-cases (has judge tc.name mocks)) [
    | inl e ↦ rw e (
      h.0,
      λ name. has-consume judge libs name tc.name (parse_args libs tc.arguments) mocks ∙ h.1 name,
    )
    | inr e ↦
        rw e (real_Holds tc (get? tc.id results) (some mocks) memory (sym (h.1 tc.name) ∙ e) h)
  ]

  added_Holds :
      (reply : CallReply) (after : CallState S judge) (later : List CallReply × CallState S judge)
      → Holds after
      → Holds later.1
      → Holds (add_reply S judge reply after later).1
  added_Holds (says text) after later now h = h
  added_Holds (fails error) after later now h = now

  each_Holds :
      (results : List (String × Json)) (calls : List ToolCall) (state : CallState S judge)
      → Holds state
      → Holds (handle_each S judge libs registry results calls state).1
  unfolding handle_each handle_tool_call
  each_Holds results [] state h = h
  each_Holds results (tc ∷ calls) state h =
      let (reply, after) = handle_tool_call S judge libs registry results tc state in
      let now : Holds after = by_Holds results tc state.mocks state.memory h in
      let later = each_Holds results calls after now in
      added_Holds reply after (handle_each S judge libs registry results calls after) now later

  free_of :
      (mocks : Option (ToolMocks judge)) (tc : ToolCall)
      → is_mocked S judge tc.name mocks ≡ mocked tc.name
      → is_dispatched S judge mocks tc ≡ true
      → mocked tc.name ≡ false
  free_of mocks tc same h = elim (Bool-cases (is_mocked S judge tc.name mocks)) [
    | inl e ↦ let no : false ≡ true = ground (arith, e, h) in cc
    | inr e ↦ sym same ∙ e
  ]

  response_keeps :
      (ran calls : List ToolCall) (state : CallState S judge)
      → Perm ran (dispatched S judge state.mocks calls)
      → Holds state
      → P (handle_response S judge libs registry ran calls state).1.memory.world
  unfolding handle_response
  response_keeps ran calls state order h =
      let free : All (λ tc. mocked tc.name ≡ false) ran = All_of_mem ran (λ tc m.
        free_of state.mocks tc (h.1 tc.name)
          (keep_if_holds (is_dispatched S judge state.mocks) calls tc ((mem_iff order).0 m))) in
      let (results, memory) = dispatch_tools S libs registry ran [] state.memory in
      (each_Holds results calls (record state { memory = memory })
        (dispatch_tools_keeps ran [] state.memory free h.0, h.1)).0

-- A tool that is mocked has no effect: what the handlers of the other tools keep of the world, when they are
-- called with arguments that validate and with those of them that the handler's signature names (the second call
-- after a `TypeError`), the calls of a response keep, with any mocks that are used up, in any order of the calls
-- that are dispatched before the others, and also where a call fails.
pub handle_response_keeps :
    (S : Type 0) (judge : Judge) (P : S → Type 0) (libs : Libraries) (registry : ToolRegistry S)
    (ran calls : List ToolCall) (state : CallState S judge)
    → ((name : String) (td : ToolDef S)
        → is_mocked S judge name state.mocks ≡ false
        → get S registry name ≡ some td
        → Keeps S P libs td)
    → Perm ran (dispatched S judge state.mocks calls)
    → P state.memory.world
    → P (handle_response S judge libs registry ran calls state).1.memory.world
handle_response_keeps S judge P libs registry ran calls state keeps order h =
    response_keeps S judge P libs registry (λ name. is_mocked S judge name state.mocks) keeps ran
      calls state order (h, λ name. refl)
