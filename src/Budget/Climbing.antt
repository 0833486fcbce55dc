-- ===== src/Budget/Climbing.antt =====
-- The order and the latches of an escalation, over a run of any length.
use diff_graph.Base.{
  Bool, Bool-cases, List, String, [], any, ap, arith, count_if, count_if-append, false,
  if◌then◌else◌, inl, inr, map, not, refl, sym, ◌&&◌, ◌++◌, ◌+◌, ◌||◌, ◌∷◌, ◌≡◌,
}
use diff_graph.Budget.Context.{PusherAction}
use diff_graph.Budget.Escalation.{
  EscalationArgs, EscalationClass, Rung, all_levels, climb, insert_level, make_escalation,
  sort_levels,
}
use diff_graph.Budget.State.{PusherType}
use diff_graph.Floats.{Float, FloatLaws, reaches}

module _ (F : Float) where
  abbrev pub IsAbove : F.Real → List (Rung F) → Type 0
  IsAbove at [] = Unit
  IsAbove at (r ∷ rs) = F.lt r.at at ≡ false

  -- Thresholds in ascending order: none is below the one before it.
  abbrev pub IsAscending : List (Rung F) → Type 0
  IsAscending [] = Unit
  IsAscending (r ∷ rs) = IsAbove r.at rs × IsAscending rs

  -- A rung that some of the ratios reached.
  abbrev pub is_reached : List F.Real → Rung F → Bool
  is_reached ratios r = any (λ ratio. reaches F ratio r.at) ratios

  -- `apply` at each of a run's ratios in turn: the levels in the end, and all actions appended.
  abbrev pub climb_all :
      String → List F.Real → List (Rung F) → List (Rung F) × List (PusherAction F)
  climb_all kind [] rs = (rs, [])
  climb_all kind (ratio ∷ ratios) rs =
      let first = climb F kind ratio rs in
      let rest = climb_all kind ratios first.0 in (rest.0, first.1 ++ rest.1)

  -- What identifies a level: its type, message and threshold.
  abbrev pub Level : Type 0
  Level = PusherType × String × F.Real

  abbrev pub of_rung : Rung F → Level
  of_rung r = (r.type, r.message, r.at)

  abbrev pub of_action : PusherAction F → Level
  of_action a = (a.type, a.message, a.threshold)

  abbrev mark : F.Real → Rung F → Rung F
  mark ratio r = record r { fired = r.fired || reaches F ratio r.at }

  abbrev pub is_due : (Level → Bool) → List F.Real → Rung F → Bool
  is_due q ratios r = q (of_rung r) && not r.fired && is_reached ratios r

  levels-climb :
      (kind : String) (ratio : F.Real) (rs : List (Rung F))
      → (climb F kind ratio rs).0 ≡ map (mark ratio) rs
  unfolding climb
  levels-climb kind ratio [] = refl
  levels-climb kind ratio (r ∷ rs) = let rest = levels-climb kind ratio rs in ground (arith, rest)

  actions-climb :
      (q : Level → Bool) (kind : String) (ratio : F.Real) (rs : List (Rung F))
      → count_if (λ a. q (of_action a)) (climb F kind ratio rs).1
        ≡ count_if (is_due q (ratio ∷ [])) rs
  unfolding climb
  actions-climb q kind ratio [] = refl
  actions-climb q kind ratio (r ∷ rs) = let rest = actions-climb q kind ratio rs in ground arith

  due_split :
      (q : Level → Bool) (ratio : F.Real) (ratios : List F.Real) (rs : List (Rung F))
      → count_if (is_due q (ratio ∷ [])) rs + count_if (is_due q ratios) (map (mark ratio) rs)
        ≡ count_if (is_due q (ratio ∷ ratios)) rs
  due_split q ratio ratios [] = refl
  due_split q ratio ratios (r ∷ rs) = let rest = due_split q ratio ratios rs in ground arith

  due_none : (q : Level → Bool) (rs : List (Rung F)) → count_if (is_due q []) rs ≡ 0
  due_none q [] = refl
  due_none q (r ∷ rs) = let rest = due_none q rs in ground arith

  -- Over a run in which the levels see any sequence of ratios, exactly the levels that had not fired and
  -- that some ratio reached produce an action, each of them one: among the actions appended, those of
  -- any kind of level are as many as such levels are.
  pub climb_all_once :
      (q : Level → Bool) (kind : String) (ratios : List F.Real) (rs : List (Rung F))
      → count_if (λ a. q (of_action a)) (climb_all kind ratios rs).1 ≡ count_if (is_due q ratios) rs
  climb_all_once q kind [] rs = sym (due_none q rs)
  climb_all_once q kind (ratio ∷ ratios) rs =
      let first = climb F kind ratio rs in
      let split =
        count_if-append (λ a. q (of_action a)) first.1 (climb_all kind ratios first.0).1 in
      let now = actions-climb q kind ratio rs in
      let later = climb_all_once q kind ratios first.0 in
      let same : count_if (is_due q ratios) first.0
          ≡ count_if (is_due q ratios) (map (mark ratio) rs) =
        ap (λ l. count_if (is_due q ratios) l) (levels-climb kind ratio rs) in
      let sum = due_split q ratio ratios rs in omega (arith, split, now, later, same, sum)

  module _ (laws : FloatLaws F) where
    insert_level-IsAscending :
        (x : Rung F) (rs : List (Rung F)) → IsAscending rs → IsAscending (insert_level F x rs)
    unfolding insert_level
    insert_level-IsAscending x [] h = (tt, tt)
    insert_level-IsAscending x (y ∷ []) h = let asym = laws.lt_asym x.at y.at in ground arith
    insert_level-IsAscending x (y ∷ z ∷ rs) h =
        let asym = laws.lt_asym x.at y.at in
        let rest = insert_level-IsAscending x (z ∷ rs) h.1 in
        let above : F.lt x.at y.at ≡ false
            → IsAbove y.at (if F.lt x.at z.at then x ∷ z ∷ rs else z ∷ insert_level F x rs) =
          λ e. ground arith in
        elim (Bool-cases (F.lt x.at y.at)) [
          | inl e ↦ rw e (asym e, h)
          | inr e ↦ rw e (above e, rest)
        ]

    count_if-insert_level :
        (q : Rung F → Bool) (x : Rung F) (rs : List (Rung F))
        → count_if q (insert_level F x rs) ≡ (if q x then 1 else 0) + count_if q rs
    unfolding insert_level
    count_if-insert_level q x [] = refl
    count_if-insert_level q x (y ∷ rs) = let rest = count_if-insert_level q x rs in ground arith

    sort_levels_lem :
        (q : Rung F → Bool) (done rs : List (Rung F))
        → IsAscending done
        → IsAscending (sort_levels F done rs)
          × (count_if q (sort_levels F done rs) ≡ count_if q done + count_if q rs)
    unfolding sort_levels
    sort_levels_lem q done [] h = (h, omega arith)
    sort_levels_lem q done (x ∷ rs) h =
        let rest =
          sort_levels_lem q (insert_level F x done) rs (insert_level-IsAscending x done h) in
        let inserted = count_if-insert_level q x done in (rest.0, omega (arith, rest, inserted))

    -- The levels of a constructed escalation ascend, whatever thresholds were configured, and are
    -- exactly the levels configured.
    pub make_escalation_sorted :
        (q : Rung F → Bool) (c : EscalationClass F) (a : EscalationArgs F)
        → IsAscending (make_escalation F c a).levels
          × (count_if q (make_escalation F c a).levels ≡ count_if q (all_levels F c a))
    unfolding make_escalation
    make_escalation_sorted q c a =
        let sorted = sort_levels_lem q [] (all_levels F c a) tt in (sorted.0, omega (arith, sorted))
