-- ===== src/Children/Tests.antt =====
-- Two children, one with a callback, and a pusher.
use diff_graph.Agent.Tests.{F, first_run}
use diff_graph.Base.{List, [], any, false, refl, some, true, ℕ, ◌++◌, ◌+◌, ◌||◌, ◌∷◌, ◌≡◌, ◌≤◌}
use diff_graph.Children.{
  Family, any_pusher_pending, await_targets, collect, drain_async_callbacks, is_in, no_children,
  push_result, spawn_async, store_result,
}
use diff_graph.Children.Counted.{flag, overtaken_now, times}
use diff_graph.Children.Once.{Reach, Reach-reported, Step, late_callback}
use diff_graph.Children.Pending.{any_pusher_pending_lem, fires, is_nonempty}
use diff_graph.Dict.{get?, has_key, set_key}

abbrev two_children : Family ℕ
two_children = spawn_async ℕ "c2" (spawn_async ℕ "c1" (no_children ℕ))

two_reach : Reach ℕ [] two_children
two_reach =
    Reach.next (Reach.next Reach.begins (Step.spawns "c1" (no_children ℕ) refl))
      (Step.spawns "c2" (spawn_async ℕ "c1" (no_children ℕ)) refl)

-- The first child stores its result, all children are awaited, and only then it calls back.
abbrev stored_one : Family ℕ
stored_one = store_result ℕ "c1" 5 two_children

abbrev awaited_one : Family ℕ
awaited_one = (collect ℕ (await_targets ℕ "" stored_one) stored_one).1

abbrev late_one : Family ℕ
late_one = push_result ℕ "c1" 5 awaited_one

unstored : has_key {V = ℕ} "c1" [] ≡ false
unfolding get?
unstored = refl

held_result : get? "c1" awaited_one.children_results ≡ some 5
unfolding collect get? set_key
held_result = refl

no_callback : is_in "c1" awaited_one.called_back ≡ false
unfolding collect
no_callback = refl

ended_reach : Reach ℕ (overtaken_now ℕ stored_one ++ []) late_one
ended_reach =
    Reach.next
      (Reach.next (Reach.next two_reach (Step.stores "c1" 5 two_children refl unstored))
        (Step.awaits stored_one))
      (Step.pushes "c1" 5 awaited_one held_result no_callback)

Reach-reported_example :
    (times "c1" late_one.called_back ≤ 1)
    × (times "c1" (overtaken_now ℕ stored_one ++ []) ≤ 1)
    × (times "c1" late_one.reported ≤ 1 + times "c1" (overtaken_now ℕ stored_one ++ []))
    × (times "c1" (drain_async_callbacks ℕ late_one).1.reported
        ≡ times "c1" late_one.called_back + times "c1" (overtaken_now ℕ stored_one ++ []))
    × (flag (has_key "c1" late_one.children_results)
        ≤ times "c1" (collect ℕ (await_targets ℕ "" late_one) late_one).1.reported)
Reach-reported_example = Reach-reported ℕ "c1" ended_reach

stored : has_key "c1" (store_result ℕ "c1" 5 two_children).children_results ≡ true
unfolding get? set_key
stored = refl

late_callback_example :
    let awaited =
      (collect ℕ
        (await_targets ℕ "" (store_result ℕ "c1" 5 two_children))
        (store_result ℕ "c1" 5 two_children)).1 in
    times "c1" (drain_async_callbacks ℕ (push_result ℕ "c1" 5 awaited)).1.reported
    ≡ times "c1" (store_result ℕ "c1" 5 two_children).reported + 2
late_callback_example = late_callback ℕ "c1" 5 (store_result ℕ "c1" 5 two_children) refl refl stored

abbrev waiting : List ℕ
waiting = 5 ∷ []

any_pusher_pending_lem_example :
    any_pusher_pending F 0 waiting first_run.state first_run.tracker
    ≡ (is_nonempty F waiting || any (fires F 0 first_run.state) first_run.tracker.producers)
any_pusher_pending_lem_example =
    any_pusher_pending_lem F 0 waiting first_run.state first_run.tracker
