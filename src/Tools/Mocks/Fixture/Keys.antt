-- ===== src/Tools/Mocks/Fixture/Keys.antt =====
-- Which tools a parsed fixture mocks, and in which of the two maps.
use diff_graph.Base.{
  Bool, String, [], arith, eq_iff, false, if◌then◌else◌, inl, inr, refl, str_eq, subst, true, ◌&&◌,
  ◌||◌, ◌∙◌, ◌∷◌, ◌≡◌, ◌⊎◌,
}
use diff_graph.Dict.{get?, has_key}
use diff_graph.Dict.Laws.{has-set_key}
use diff_graph.Json.{Dict}
use diff_graph.Tools.{Libraries}
use diff_graph.Tools.Mocks.{ToolMocks, has}
use diff_graph.Tools.Mocks.Fixture.{
  FixtureError, Mock, Parsing, from_dict, from_items, ordinal, parse_tool, parsed, put_mock,
  semantic, value_error,
}
use diff_graph.Tools.Semantic.{Judge}

-- No key occurs twice, as in every dictionary.
abbrev pub IsDistinct : Dict → Type 0
IsDistinct [] = Unit
IsDistinct ((k, v) ∷ d) = (has_key k d ≡ false) × IsDistinct d

Parsing-cases {ℓ} :
    {A : Type ℓ} (p : Parsing A)
    → ((a : A) × (p ≡ parsed a)) ⊎ ((e : FixtureError) × (p ≡ value_error e))
Parsing-cases (parsed a) = inl (a, refl)
Parsing-cases (value_error e) = inr (e, refl)

module _ (judge : Judge) (libs : Libraries) (name : String) where
  abbrev both : ToolMocks judge → Bool
  both mocks = has_key name mocks.by_tool && has_key name mocks.semantic_by_tool

  has-put_mock :
      (tool : String) (mock : Mock judge libs) (mocks : ToolMocks judge)
      → has judge name (put_mock judge libs tool mock mocks)
        ≡ (if str_eq tool name then true else has judge name mocks)
  has-put_mock tool (ordinal entries) mocks =
      ground (arith, has-set_key tool name entries mocks.by_tool)
  has-put_mock tool (semantic cfg) mocks =
      ground (arith, has-set_key tool name cfg mocks.semantic_by_tool)

  both-put_mock :
      (tool : String) (mock : Mock judge libs) (mocks : ToolMocks judge)
      → both mocks ≡ false
      → (str_eq tool name && has judge name mocks) ≡ false
      → both (put_mock judge libs tool mock mocks) ≡ false
  both-put_mock tool (ordinal entries) mocks h k =
      ground (arith, has-set_key tool name entries mocks.by_tool)
  both-put_mock tool (semantic cfg) mocks h k =
      ground (arith, has-set_key tool name cfg mocks.semantic_by_tool)

  -- The mocks of the items, over those of the items before.
  abbrev IsOf : Dict → ToolMocks judge → ToolMocks judge → Type 0
  IsOf items mocks m =
      (has judge name m ≡ (has judge name mocks || has_key name items)) × (both m ≡ false)

  from_items_keys :
      (items : Dict) (mocks m : ToolMocks judge)
      → IsDistinct items
      → both mocks ≡ false
      → (has_key name items && has judge name mocks) ≡ false
      → from_items judge libs items mocks ≡ parsed m
      → IsOf items mocks m
  unfolding from_items get?
  from_items_keys [] mocks m d h k e =
      let same : mocks ≡ m = cc in subst (IsOf [] mocks) same (ground arith, h)
  from_items_keys ((tool, v) ∷ items) mocks m d h k e =
      elim (Parsing-cases (parse_tool judge libs tool v)) [
        | inl (mock, read) ↦
            let next = put_mock judge libs tool mock mocks in
            let now = has-put_mock tool mock mocks in
            let (keys, apart) =
              from_items_keys items next m d.1 (both-put_mock tool mock mocks h (ground (arith, k)))
                (ground (arith, eq_iff tool name, now, k, d.0)) (rw read at e) in
            (keys ∙ ground (arith, now), apart)
        | inr (w, failed) ↦ let no : value_error w ≡ parsed m = rw failed at e in cc
      ]

  -- The mocks that a fixture gives are those of its tools, and each tool has either a list of entries or fixtures that are
  -- chosen by meaning, never both.
  pub from_dict_keys :
      (fixture : Dict) (source_path : String) (m : ToolMocks judge)
      → IsDistinct fixture
      → from_dict judge libs fixture source_path ≡ parsed m
      → (has judge name m ≡ has_key name fixture)
        × ((has_key name m.by_tool && has_key name m.semantic_by_tool) ≡ false)
  unfolding from_dict get?
  from_dict_keys fixture source_path m d e =
      from_items_keys fixture
        (record { by_tool = []; semantic_by_tool = []; source_path = source_path; consumed = [] }) m
        d refl (ground arith) e
