-- ===== src/Tools/Chain/Laws.antt =====
-- What validation and repair guarantee of the arguments that a tool's handler gets.
use diff_graph.Base.{
  All, Bool-cases, List, Option, Option-cases, String, [], ap, arith, false, inl, inr, none, not,
  or_else-cases, or_else-none, refl, some, sym, true, ◌&&◌, ◌∙◌, ◌∷◌, ◌≡◌,
}
use diff_graph.Json.{Json, dict}
use diff_graph.Tools.{Libraries, Proposal, RepairHandler, breaks_down, declines, proposes}
use diff_graph.Tools.Chain.{
  accepted, is_empty_chain, is_missing_required, on_error, refused, revalidated, settle, surfaced,
  unless_repaired, validate_args, walk_chain,
}

module _ (libs : Libraries) (raw : Option String) (args schema : Json) where
  checked_valid :
      (p : Proposal) (c : Json)
      → revalidated libs schema p ≡ some c
      → validate_args libs c schema ≡ none
  checked_valid declines c h = cc
  checked_valid breaks_down c h = cc
  checked_valid (proposes d) c h = elim (Option-cases (validate_args libs (dict d) schema)) [
    | inl e ↦ ground (arith, e, h)
    | inr (w, e) ↦ ground (arith, e, h)
  ]

  pub walk_valid :
      (chain : List RepairHandler) (error : String) (c : Json)
      → walk_chain libs chain raw args schema error ≡ some c
      → validate_args libs c schema ≡ none
  unfolding walk_chain
  walk_valid [] error c h = cc
  walk_valid (r ∷ chain) error c h =
      let p = r.try_repair raw args schema error in
      elim (or_else-cases (revalidated libs schema p) (walk_chain libs chain raw args schema error)
        c h) [ inl e ↦ checked_valid p c e | inr e ↦ walk_valid chain error c e ]

  -- A proposal that is not taken: none, an exception, or arguments that do not validate.
  abbrev pub IsUseless : String → RepairHandler → Type 0
  IsUseless error r = revalidated libs schema (r.try_repair raw args schema error) ≡ none

  pub walk_none :
      (chain : List RepairHandler) (error : String)
      → walk_chain libs chain raw args schema error ≡ none
      → All (IsUseless error) chain
  unfolding walk_chain
  walk_none [] error h = tt
  walk_none (r ∷ chain) error h =
      let p = r.try_repair raw args schema error in
      let (now, later) =
        or_else-none (revalidated libs schema p) (walk_chain libs chain raw args schema error) h in
      (now, walk_none chain error later)

  unless_repaired_valid :
      (o : Option Json) (error : String) (c : Json)
      → ((d : Json) → o ≡ some d → validate_args libs d schema ≡ none)
      → unless_repaired libs o raw args error ≡ accepted c
      → validate_args libs c schema ≡ none
  unless_repaired_valid none error c h k = cc
  unless_repaired_valid (some d) error c h k = let same : d ≡ c = cc in h c (ap some same)

  on_error_valid :
      (chain : List RepairHandler) (e : Option String) (c : Json)
      → validate_args libs args schema ≡ e
      → on_error libs chain raw args schema e ≡ accepted c
      → validate_args libs c schema ≡ none
  on_error_valid chain none c v h =
      let same : args ≡ c = cc in ap (λ a. validate_args libs a schema) (sym same) ∙ v
  on_error_valid chain (some error) c v h =
      elim (Bool-cases (not (is_empty_chain chain) && not (is_missing_required error))) [
        | inl e ↦ let no : refused error ≡ accepted c = rw e at h in cc
        | inr e ↦
            unless_repaired_valid (walk_chain libs chain raw args schema error) error c
              (walk_valid chain error) (rw e at h)
      ]

  -- Arguments that are accepted validate against the tool's schema, repaired or not.
  pub settle_valid :
      (chain : List RepairHandler) (c : Json)
      → settle libs chain raw args schema ≡ accepted c
      → validate_args libs c schema ≡ none
  unfolding settle
  settle_valid chain c h = on_error_valid chain (validate_args libs args schema) c refl h

  unless_repaired-none :
      (o : Option Json) (error text : String)
      → unless_repaired libs o raw args error ≡ refused text
      → (o ≡ none) × (text ≡ surfaced libs raw args error)
  unless_repaired-none none error text h = (refl, cc)
  unless_repaired-none (some d) error text h = cc

  -- A refusal of arguments without a required field says that no handler of the chain had anything to offer
  -- that validates, and the text that goes back is the surfaced error.
  pub settle_refused :
      (chain : List RepairHandler) (error text : String)
      → validate_args libs args schema ≡ some error
      → is_missing_required error ≡ true
      → settle libs chain raw args schema ≡ refused text
      → All (IsUseless error) chain × (text ≡ surfaced libs raw args error)
  unfolding settle
  settle_refused chain error text v m h =
      let off : (not (is_empty_chain chain) && not (is_missing_required error)) ≡ false =
        ground (arith, m) in
      let (out, said) =
        unless_repaired-none (walk_chain libs chain raw args schema error) error text
          (rw (v, off) at h) in
      (walk_none chain error out, said)
