-- ===== src/Agent/Retries.antt =====
-- How often the guards fire, and what it means that none does.
use diff_graph.Agent.Guards.{
  check_guard, check_require_tool_guards, fire_guard, guard_text, max_guard_retries, passes,
  required_prefix, required_tool, retries_of, set_retries,
}
use diff_graph.Base.{
  All, Bool-cases, List, Option, String, [], arith, inl, inr, leb, none, refl, some, true, ℕ, ◌+◌,
  ◌<>◌, ◌∷◌, ◌≡◌, ◌≤◌,
}

-- No guard has fired more often than it may.
abbrev pub IsBounded : List (String × ℕ) → Type 0
IsBounded retries = All (λ entry. entry.1 ≤ max_guard_retries) retries

set_retries-IsBounded :
    (key : String) (n : ℕ) (retries : List (String × ℕ))
    → n ≤ max_guard_retries
    → IsBounded retries
    → IsBounded (set_retries key n retries)
set_retries-IsBounded key n [] h b = (h, tt)
set_retries-IsBounded key n (entry ∷ retries) h b =
    ground (arith, set_retries-IsBounded key n retries h b.1)

module _ (interpolate : String → String) where
  fire_guard-IsBounded :
      (trigger : String) (text : Option String) (retries : List (String × ℕ))
      → IsBounded retries
      → IsBounded (fire_guard interpolate trigger text retries).1
  fire_guard-IsBounded trigger none retries b = b
  fire_guard-IsBounded trigger (some text) retries b =
      elim (Bool-cases (leb max_guard_retries (retries_of trigger retries))) [
        | inl spent ↦ rw spent b
        | inr left ↦ rw left (set_retries-IsBounded trigger _ retries (ground arith) b)
      ]

  pub check_guard-IsBounded :
      (trigger : String) (guards : List (String × String)) (retries : List (String × ℕ))
      → IsBounded retries
      → IsBounded (check_guard interpolate trigger guards retries).1
  check_guard-IsBounded trigger guards retries b =
      fire_guard-IsBounded trigger (guard_text trigger guards) retries b

  pub check_require-IsBounded :
      (guards : List (String × String)) (called : List String) (retries : List (String × ℕ))
      → IsBounded retries
      → IsBounded (check_require_tool_guards interpolate guards called retries).1
  check_require-IsBounded [] called retries b = b
  check_require-IsBounded (guard ∷ guards) called retries b =
      let key = required_prefix <> required_tool guard.0 in
      elim (Bool-cases (passes guard.0 called retries)) [
        | inl past ↦ rw past (check_require-IsBounded guards called retries b)
        | inr fires ↦
            let left : retries_of key retries + 1 ≤ max_guard_retries = ground (arith, fires) in
            rw fires (set_retries-IsBounded key _ retries left b)
      ]

  -- A check that lets the run end has found every guard met or spent, and counts nothing.
  pub check_require_none :
      (guards : List (String × String)) (called : List String) (retries : List (String × ℕ))
      → (check_require_tool_guards interpolate guards called retries).0 ≡ none
      → ((check_require_tool_guards interpolate guards called retries).1 ≡ retries)
        × All (λ guard. passes guard.0 called retries ≡ true) guards
  check_require_none [] called retries e = (refl, tt)
  check_require_none (guard ∷ guards) called retries e =
      elim (Bool-cases (passes guard.0 called retries)) [
        | inl past ↦
            let (same, all) = check_require_none guards called retries (rw past at e) in
            rw past (same, (refl, all))
        | inr fires ↦ let never = rw fires at e in cc never
      ]
