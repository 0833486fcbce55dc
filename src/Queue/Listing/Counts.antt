-- ===== src/Queue/Listing/Counts.antt =====
-- The numbers of `progress` are those of the plan's rows.
use diff_graph.Base.{
  All_of, Bool, Bool-cases, List, Option-cases, String, [], ap, arith, count_if, count_if-keep_if,
  false, inl, inr, is_number, keep_if, refl, some, str_eq, true, ℕ, ◌&&◌, ◌∙◌, ◌∷◌, ◌≡◌,
}
use diff_graph.Dict.{get?, set_key}
use diff_graph.Dict.Laws.{get-set_key}
use diff_graph.Queue.Listing.{
  Counters, collect_groups, group_rows, in_plan, kind_text, or_no_counters, or_zero, progress,
  put_totals, state_text, sum_values,
}
use diff_graph.Queue.Listing.Groups.{group_rows-IsDistinct, of_row, sum_of, sum_of-group_rows}
use diff_graph.Queue.Listing.Slots.{collect_groups_out, collect_groups_slots, slot_of}
use diff_graph.Queue.Rows.{Db, Task, TaskKind, TaskState, blocked, error, finished, leased, queued}
use mathlib.Core.Option

abbrev pub has_state : TaskState → Task → Bool
has_state state t = str_eq (state_text t.state) (state_text state)

abbrev pub has_kind : TaskKind → Task → Bool
has_kind kind t = str_eq (kind_text t.kind) (kind_text kind)

abbrev with_total : Counters → Counters
with_total slot = set_key "total" (sum_values slot) slot

put_totals_lem :
    (by_kind : List (String × Counters)) (k : String)
    → get? k (put_totals by_kind) ≡ Option.map with_total (get? k by_kind)
unfolding put_totals get?
put_totals_lem [] k = refl
put_totals_lem ((j, slot) ∷ by_kind) k = elim (Bool-cases (str_eq j k)) [
  | inl e ↦ rw e refl
  | inr e ↦ rw e (put_totals_lem by_kind k)
]

-- What a slot says once its total is put in.
put_totals_slot :
    (by_kind : List (String × Counters)) (k s : String)
    → str_eq "total" s ≡ false
    → (or_zero (get? s (slot_of k (put_totals by_kind))) ≡ or_zero (get? s (slot_of k by_kind)))
      × (or_zero (get? "total" (slot_of k (put_totals by_kind))) ≡ sum_values (slot_of k by_kind))
unfolding sum_values get?
put_totals_slot by_kind k s other = elim (Option-cases (get? k by_kind)) [
  | inl e ↦
      let gone : slot_of k (put_totals by_kind) ≡ [] =
        ap or_no_counters (put_totals_lem by_kind k) ∙ rw e refl in
      (rw (gone, e) refl, rw (gone, e) refl)
  | inr (slot, e) ↦
      let put : slot_of k (put_totals by_kind) ≡ with_total slot =
        ap or_no_counters (put_totals_lem by_kind k) ∙ rw e refl in
      let here = get-set_key "total" "total" (sum_values slot) slot in
      let there = get-set_key "total" s (sum_values slot) slot in
      let kept : get? s (with_total slot) ≡ get? s slot = there ∙ rw other refl in
      (rw (put, e) (ap or_zero kept), rw (put, e) (ap or_zero here))
]

state_text_lem : (state : TaskState) → str_eq "total" (state_text state) ≡ false
state_text_lem queued = refl
state_text_lem leased = refl
state_text_lem TaskState.running = refl
state_text_lem finished = refl
state_text_lem error = refl
state_text_lem TaskState.cancelled = refl
state_text_lem blocked = refl

-- The groups' sum by a test is the number of the plan's rows that pass it.
groups_lem :
    (plan : ℕ) (db : Db) (q : String → String → Bool)
    → sum_of q (group_rows (keep_if (in_plan (some plan)) db.tasks) [])
      ≡ count_if (λ t. is_number t.plan_id plan && of_row q t) db.tasks
groups_lem plan db q =
    let rows = keep_if (in_plan (some plan)) db.tasks in
    let grouped = sum_of-group_rows q rows [] in
    let kept = count_if-keep_if (in_plan (some plan)) (of_row q) db.tasks in
    omega (arith, grouped, kept)

count_if-true : (p : Task → Bool) (ts : List Task) → count_if (λ t. p t && true) ts ≡ count_if p ts
count_if-true p [] = refl
count_if-true p (t ∷ ts) = ground (arith, count_if-true p ts)

-- `progress` counts the plan's rows: all of them in `total`, those of each state under the state, and in the slot of each
-- kind those of the kind under `total` and those of the kind and a state under the state.
pub progress_lem :
    (plan : ℕ) (db : Db) (kind : TaskKind) (state : TaskState)
    → let p = progress plan db in
      let slot = or_no_counters (get? (kind_text kind) p.by_kind) in
      (p.total ≡ count_if (λ t. is_number t.plan_id plan) db.tasks)
      × (or_zero (get? (state_text state) p.counts)
          ≡ count_if (λ t. is_number t.plan_id plan && has_state state t) db.tasks)
      × (or_zero (get? "total" slot)
          ≡ count_if (λ t. is_number t.plan_id plan && has_kind kind t) db.tasks)
      × (or_zero (get? (state_text state) slot)
          ≡ count_if
              (λ t. is_number t.plan_id plan && (has_kind kind t && has_state state t))
              db.tasks)
unfolding progress sum_values get?
progress_lem plan db kind state =
    let rows = group_rows (keep_if (in_plan (some plan)) db.tasks) [] in
    let k = kind_text kind in
    let s = state_text state in
    let (by_state, total) = collect_groups_out rows [] [] s in
    let (entry, slot_total) =
      collect_groups_slots rows [] [] k s (group_rows-IsDistinct _ [] tt)
        (All_of (λ g. refl) rows) in
    let (shown, shown_total) =
      put_totals_slot (collect_groups rows [] []).1 k s (state_text_lem state) in
    (
      omega (
        arith,
        total,
        groups_lem plan db (λ i t. true),
        count_if-true (λ t. is_number t.plan_id plan) db.tasks,
      ),
      omega (arith, by_state, groups_lem plan db (λ i t. str_eq t s)),
      omega (arith, shown_total, slot_total, groups_lem plan db (λ i t. str_eq i k)),
      omega (arith, shown, entry, groups_lem plan db (λ i t. str_eq i k && str_eq t s)),
    )
