-- ===== src/Tools/Repair/Lifted.antt =====
-- What `_repair_stringified_args` keeps and recovers.
use diff_graph.Base.{
  All, Bool-cases, List, Option, String, [], arith, false, inl, inr, none, not, or_else-cases, refl,
  some, str_eq, subst, sym, true, ◌||◌, ◌∷◌, ◌≡◌,
}
use diff_graph.Dict.{has_key, update_keys, without}
use diff_graph.Dict.Laws.{get-without, has-update_keys}
use diff_graph.Json.{Dict, as_str}
use diff_graph.Text.{ends_with, strip}
use diff_graph.Tools.{Libraries}
use diff_graph.Tools.Repair.{
  candidates, covering, covers, first_lifted, lift_from, lift_missing, lift_value, load_dict,
  merged, missing_from, repair_stringified_args, required_of,
}

-- A dictionary with each of the names.
abbrev pub HasKeys : List String → Dict → Type 0
HasKeys names d = All (λ k. has_key k d ≡ true) names

covers-HasKeys : (names : List String) (d : Dict) → covers names d ≡ true → HasKeys names d
covers-HasKeys [] d h = tt
covers-HasKeys (k ∷ names) d h = elim (Bool-cases (has_key k d)) [
  | inl e ↦ (e, covers-HasKeys names d (rw e at h))
  | inr e ↦ let no : false ≡ true = rw e at h in cc
]

-- The repaired arguments: one key is dropped, and the lifted ones lie over the rest.
abbrev IsLifted : List String → Dict → Dict → Type 0
IsLifted missing args r =
    (key : String) × (lifted : Dict) × (r ≡ update_keys (without key args) lifted)
    × HasKeys missing lifted

module _ (libs : Libraries) (missing : List String) where
  covering-HasKeys : (o : Option Dict) (d : Dict) → covering missing o ≡ some d → HasKeys missing d
  covering-HasKeys none d h = cc
  covering-HasKeys (some c) d h = elim (Bool-cases (covers missing c)) [
    | inl e ↦ covers-HasKeys missing d (ground (arith, e, h))
    | inr e ↦ let no : none ≡ some d = rw e at h in cc
  ]

  first_lifted-HasKeys :
      (texts : List String) (d : Dict)
      → first_lifted libs missing texts ≡ some d
      → HasKeys missing d
  first_lifted-HasKeys [] d h = cc
  first_lifted-HasKeys (c ∷ cs) d h =
      elim (or_else-cases (covering missing (load_dict libs c)) (first_lifted libs missing cs) d
        h) [ inl e ↦ covering-HasKeys (load_dict libs c) d e | inr e ↦ first_lifted-HasKeys cs d e ]

  lift_value-HasKeys :
      (key : String) (text : Option String) (d : Dict)
      → lift_value libs missing key text ≡ some d
      → HasKeys missing d
  lift_value-HasKeys key none d h = cc
  lift_value-HasKeys key (some text) d h = elim (Bool-cases (not (ends_with (strip text) "}"))) [
    | inl e ↦ let no : none ≡ some d = rw e at h in cc
    | inr e ↦ first_lifted-HasKeys (candidates libs key (strip text)) d (rw e at h)
  ]

  merged-IsLifted :
      (args r : Dict) (key : String) (o : Option Dict)
      → ((d : Dict) → o ≡ some d → HasKeys missing d)
      → merged args key o ≡ some r
      → IsLifted missing args r
  merged-IsLifted args r key none all h = cc
  merged-IsLifted args r key (some d) all h = (key, d, cc, all d refl)

  lift_from-IsLifted :
      (args items r : Dict) → lift_from libs missing args items ≡ some r → IsLifted missing args r
  lift_from-IsLifted args [] r h = cc
  lift_from-IsLifted args ((key, v) ∷ items) r h =
      let o = lift_value libs missing key (as_str v) in
      elim (or_else-cases (merged args key o) (lift_from libs missing args items) r h) [
        | inl e ↦ merged-IsLifted args r key o (lift_value-HasKeys key (as_str v)) e
        | inr e ↦ lift_from-IsLifted args items r e
      ]

update-HasKeys :
    (names : List String) (d lifted : Dict)
    → HasKeys names lifted
    → HasKeys names (update_keys d lifted)
update-HasKeys [] d lifted h = tt
update-HasKeys (k ∷ names) d lifted h =
    (ground (arith, has-update_keys k d lifted, h.0), update-HasKeys names d lifted h.1)

-- A key of the arguments other than the dropped one is a key of the update.
kept_key :
    (key k : String) (args lifted : Dict)
    → (str_eq key k || not (has_key k args) || has_key k (update_keys (without key args) lifted))
      ≡ true
kept_key key k args lifted =
    ground (arith, has-update_keys k (without key args) lifted, get-without key k args)

-- The repair of packed arguments has every required key that the arguments lacked, and loses at most one of
-- their keys, that of the packed text.
abbrev pub Repairs : List String → Dict → Dict → Type 0
Repairs missing args r =
    HasKeys missing r
    × ((key : String) × ((k : String)
          → (str_eq key k || not (has_key k args) || has_key k r) ≡ true))

IsLifted-Repairs :
    (missing : List String) (args r : Dict) → IsLifted missing args r → Repairs missing args r
IsLifted-Repairs missing args r (key, lifted, same, all) =
    subst (Repairs missing args) (sym same)
      (update-HasKeys missing (without key args) lifted all, (key, λ k. kept_key key k args lifted))

lift_missing-Repairs :
    (libs : Libraries) (missing : List String) (args r : Dict)
    → lift_missing libs args missing ≡ some r
    → Repairs missing args r
lift_missing-Repairs libs [] args r h = cc
lift_missing-Repairs libs (k ∷ missing) args r h =
    IsLifted-Repairs (k ∷ missing) args r (lift_from-IsLifted libs (k ∷ missing) args args r h)

-- When arguments that were packed into one text are repaired, the result has every required key that the
-- arguments lacked, and all the arguments' keys but at most one.
pub repair_stringified_args_lem :
    (libs : Libraries) (args schema r : Dict)
    → repair_stringified_args libs (some args) (some schema) ≡ some r
    → Repairs (missing_from args (required_of schema)) args r
repair_stringified_args_lem libs args schema r h =
    lift_missing-Repairs libs (missing_from args (required_of schema)) args r h
