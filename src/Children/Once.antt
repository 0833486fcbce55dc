-- ===== src/Children/Once.antt =====
-- Each child's result is reported to the parent once.
use diff_graph.Base.{
  List, String, [], ap, arith, eq_iff, false, is_some, keep_if, not, refl, some, subst, sym, true,
  ◌++◌, ◌+◌, ◌∙◌, ◌∷◌, ◌≡◌, ◌≤◌,
}
use diff_graph.Children.{
  Family, await_targets, collect, drain_async_callbacks, ids_of, is_in, no_children, push_result,
  spawn_async, store_result,
}
use diff_graph.Children.Counted.{
  IsCounted, await-IsCounted, collected_now, drain-IsCounted, flag, ids_of-snoc, is_in-times,
  overtaken_now, push-IsCounted, spawn-IsCounted, store-IsCounted, times, times-append,
  times-collected_now, times-drop, times-snoc,
}
use diff_graph.Dict.{get?, has_key}
use mathlib.Core.List.{append-nil}

module _ (R : Type 0) where
  -- A call of the parent, or one of the two critical sections of a child's thread, with the ids that an await reports
  -- before their children have called back. The result that a child queues is the one that it has stored.
  pub data Step : List String → Family R → Family R → Type 0 where
    spawns :
        (id : String) (s : Family R)
        → is_in id s.async_spawned ≡ false
        → Step [] s (spawn_async R id s)
    stores :
        (id : String) (result : R) (s : Family R)
        → is_in id s.async_spawned ≡ true
        → has_key id s.children_results ≡ false
        → Step [] s (store_result R id result s)
    pushes :
        (id : String) (result : R) (s : Family R)
        → get? id s.children_results ≡ some result
        → is_in id s.called_back ≡ false
        → Step [] s (push_result R id result s)
    drains : (s : Family R) → Step [] s (drain_async_callbacks R s).1
    awaits : (s : Family R) → Step (overtaken_now R s) s (collect R (await_targets R "" s) s).1

  -- The states that the steps reach, with all ids that awaits have reported too early.
  pub data Reach : List String → Family R → Type 0 where
    begins : Reach [] (no_children R)
    next :
        {overtaken more : List String} {s t : Family R}
        → Reach overtaken s
        → Step more s t
        → Reach (overtaken ++ more) t

  same_ids :
      (k : String) (overtaken : List String) (s : Family R)
      → IsCounted R k overtaken s
      → IsCounted R k (overtaken ++ []) s
  same_ids k overtaken s c = subst (λ ids. IsCounted R k ids s) (sym (append-nil overtaken)) c

  step-IsCounted :
      (k : String) (overtaken : List String) {more : List String} {s t : Family R}
      → Step more s t
      → IsCounted R k overtaken s
      → IsCounted R k (overtaken ++ more) t
  step-IsCounted k overtaken (spawns id s fresh) c =
      same_ids k overtaken _ (spawn-IsCounted R k id overtaken s fresh c)
  step-IsCounted k overtaken (stores id result s spawned fresh) c =
      same_ids k overtaken _ (store-IsCounted R k id result overtaken s spawned c)
  step-IsCounted k overtaken (pushes id result s stored silent) c =
      same_ids k overtaken _ (push-IsCounted R k id result overtaken s (ap is_some stored) silent c)
  step-IsCounted k overtaken (drains s) c =
      same_ids k overtaken _ (drain-IsCounted R k overtaken s c)
  step-IsCounted k overtaken (awaits s) c = await-IsCounted R k overtaken s c

  reach-IsCounted :
      (k : String) {overtaken : List String} {s : Family R}
      → Reach overtaken s
      → IsCounted R k overtaken s
  unfolding get?
  reach-IsCounted k begins = record {
    spawned_once = omega arith;
    finished = omega arith;
    heard = omega arith;
    queued = omega arith;
    overtaken_once = omega arith;
    counted = refl;
    known = omega arith;
    told = omega arith;
  }
  reach-IsCounted k (next reach step) = step-IsCounted k _ step (reach-IsCounted k reach)

  -- In any interleaving of spawns, drains and awaits of all children with the two critical sections of each child's
  -- thread, which stores the child's result and, for a callback, queues it: a child calls back at most once, and at most
  -- one await reports it before that; so far it has been reported at most once, or twice if such an await has reported
  -- it; the next drain leaves it reported exactly as often as it has called back and such an await has reported it; and
  -- the next await of all children leaves each child reported whose result is stored.
  pub Reach-reported :
      (k : String) {overtaken : List String} {s : Family R}
      → Reach overtaken s
      → (times k s.called_back ≤ 1)
        × (times k overtaken ≤ 1)
        × (times k s.reported ≤ 1 + times k overtaken)
        × (times k (drain_async_callbacks R s).1.reported
            ≡ times k s.called_back + times k overtaken)
        × (flag (has_key k s.children_results)
            ≤ times k (collect R (await_targets R "" s) s).1.reported)
  unfolding collect drain_async_callbacks
  Reach-reported k {overtaken} {s} reach =
      let c = reach-IsCounted k reach in
      let after = await-IsCounted R k overtaken s c in
      let count = times-collected_now R k s in
      let said = times-append k s.reported (collected_now R s) in
      let drained = times-append k s.reported (ids_of s.async_results_queue) in
      (
        omega (arith, c.heard, c.finished, c.spawned_once),
        ground (arith, c.overtaken_once),
        omega (arith, c.counted, c.heard, c.finished, c.spawned_once),
        omega (arith, drained, c.counted),
        ground (arith, count, said, c.known, c.finished, c.spawned_once),
      )

  -- A child whose result is stored, but which has not called back yet when all children are awaited, is reported by the
  -- await and, once it has called back, by the next drain again.
  pub late_callback :
      (k : String) (result : R) (s : Family R)
      → times k s.async_spawned ≡ 1
      → is_in k s.async_collected ≡ false
      → has_key k s.children_results ≡ true
      → let awaited = (collect R (await_targets R "" s) s).1 in
        times k (drain_async_callbacks R (push_result R k result awaited)).1.reported
        ≡ times k s.reported + 2
  unfolding collect drain_async_callbacks
  late_callback k result s once uncollected stored =
      let now = collected_now R s in
      let queue = keep_if (λ e. not (is_in e.0 now)) s.async_results_queue in
      let count = times-collected_now R k s in
      let said = times-append k s.reported now in
      let counted = is_in-times k now in
      let left = times-drop R (λ id. not (is_in id now)) k s.async_results_queue in
      let pushed = ap (times k) (ids_of-snoc R queue k result) ∙ times-snoc k k (ids_of queue) in
      let drained = times-append k (s.reported ++ now) (ids_of (queue ++ (k, result) ∷ [])) in
      ground
        (arith, once, uncollected, stored, count, said, counted, left, pushed, drained, eq_iff k k)
