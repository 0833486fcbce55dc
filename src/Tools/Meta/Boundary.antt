-- ===== src/Tools/Meta/Boundary.antt =====
-- What the allowed names of a run rule out.
use diff_graph.Base.{
  Bool-cases, List, Option, String, [], inl, inr, none, refl, some, true, ◌∷◌, ◌≡◌,
}
use diff_graph.Json.{Dict, Json, is_truthy}
use diff_graph.Tools.{Attempt, Libraries, ToolDef, ToolRegistry, answered, get, raised, type_error}
use diff_graph.Tools.Meta.{
  Arguments, MetaTexts, answer_mismatch, call_checked, call_found, call_given, call_meta_tool,
  call_named, call_truthy, is_member, missing_required, read_args, ready_args, refused_args,
}

module _ (S : Type 0) (P : S → Type 0) (libs : Libraries) (words : MetaTexts)
    (registry : ToolRegistry S) where
  -- A handler keeps the property where it is called with the arguments that its schema requires.
  abbrev pub KeepsRequired : ToolDef S → Type 0
  KeepsRequired td =
      (args : Dict) (s : S)
      → missing_required td.parameters args ≡ []
      → P s
      → P (td.handler args s).1

  answer_mismatch_keeps :
      (td : ToolDef S) (r : Attempt × S) → P r.1 → P (answer_mismatch S libs words registry td r).1
  answer_mismatch_keeps td (answered v, s) h = h
  answer_mismatch_keeps td (type_error why, s) h = h
  answer_mismatch_keeps td (raised why, s) h = h

  call_checked_keeps :
      (td : ToolDef S) (args : Dict) (missing : List String) (s : S)
      → missing_required td.parameters args ≡ missing
      → KeepsRequired td
      → P s
      → P (call_checked S libs words registry td args missing s).1
  call_checked_keeps td args [] s e keeps h =
      answer_mismatch_keeps td (td.handler args s) (keeps args s e h)
  call_checked_keeps td args (name ∷ missing) s e keeps h = h

  call_given_keeps :
      (td : ToolDef S) (a : Arguments) (s : S)
      → KeepsRequired td
      → P s
      → P (call_given S libs words registry td a s).1
  call_given_keeps td (refused_args error) s keeps h = h
  call_given_keeps td (ready_args args) s keeps h =
      call_checked_keeps td args (missing_required td.parameters args) s refl keeps h

  call_found_keeps :
      (name : String) (o : Option (ToolDef S)) (args : Json) (s : S)
      → ((td : ToolDef S) → o ≡ some td → KeepsRequired td)
      → P s
      → P (call_found S libs words registry name o args s).1
  call_found_keeps name none args s keeps h = h
  call_found_keeps name (some td) args s keeps h =
      call_given_keeps td (read_args libs words args) s (keeps td refl) h

  -- Whatever the handlers of the allowed and registered tools keep, when they are called with the arguments that their
  -- schemas require, a call of `call_tool` keeps, with any name and any arguments that the model gives: no handler of
  -- another tool runs, and none without its required arguments.
  pub call_meta_tool_keeps :
      (allowed : List String) (name args : Json) (s : S)
      → ((n : String) (td : ToolDef S)
          → is_member n allowed ≡ true
          → get S registry n ≡ some td
          → KeepsRequired td)
      → P s
      → P (call_meta_tool S libs words registry allowed name args s).1
  unfolding call_meta_tool
  call_meta_tool_keeps allowed name args s keeps h = elim (Bool-cases (is_truthy name)) [
    | inr e ↦ rw e h
    | inl e ↦ rw e (by_name name)
  ]
    where
      allowed_name : (text : String) → P (call_named S libs words registry allowed text args s).1
      allowed_name text = elim (Bool-cases (is_member text allowed)) [
        | inl m ↦ rw m (
            call_found_keeps text (get S registry text) args s (λ td found. keeps text td m found)
              h)
        | inr m ↦ rw m h
      ]

      by_name : (v : Json) → P (call_truthy S libs words registry allowed v args s).1
      by_name Json.null = h
      by_name (Json.boolean b) = h
      by_name (Json.number r) = h
      by_name (Json.str text) = allowed_name text
      by_name (Json.array vs) = h
      by_name (Json.object ps) = h
