-- ===== src/Queue/Healing.antt =====
-- What the reaper and the self-healing of the worker list leave behind.
use diff_graph.Base.{
  All, All_map, All_of, Bool, List, Option, String, arith, false, if◌then◌else◌, is_text, ltb, none,
  refl, some, true, ℕ, ◌&&◌, ◌-◌, ◌≡◌,
}
use diff_graph.Queue.Lease.{is_stale, reap_stale_leases}
use diff_graph.Queue.Rows.{Db, Task, Traces, Worker, dead, has_id, is_gone, release, seconds}
use diff_graph.Queue.Workers.{heal, is_expired_row, is_orphan, is_silent, judged, list_workers}
use diff_graph.Table.{delete, find?}
use diff_graph.Table.Laws.{All-delete, All-update, any-delete}
use diff_graph.Table.Lookup.{read_back}

-- After the reaper no held task has a lease that expired before the cutoff; and a task that was in the
-- queue is still found by its id, released if its lease had expired so, and as before if not.
pub reap_complete :
    (grace now : ℕ) (db : Db) (id : ℕ) (t : Task)
    → find? (has_id id) db.tasks ≡ some t
    → All (λ r. is_stale (now - seconds grace) r ≡ false) (reap_stale_leases grace now db).1.tasks
      × (find? (has_id id) (reap_stale_leases grace now db).1.tasks
          ≡ some (if is_stale (now - seconds grace) t then release t else t))
unfolding reap_stale_leases
reap_complete grace now db id t e = (
  All-update {P = λ t. Unit {0}} (is_stale (now - seconds grace)) release db.tasks
      (λ t _ _. ground arith) (λ t miss _. miss) (All_of (λ t. tt) db.tasks),
  read_back (has_id id) (is_stale (now - seconds grace)) release db.tasks t (λ r. refl) e,
)

-- Garbage collection only takes workers away, so it makes no orphan and no silent worker.
module _ (gc : ℕ) (judged : List Worker) where
  orphan_delete :
      (t : Task)
      → is_orphan judged t ≡ false
      → is_orphan (delete (is_expired_row gc) judged) t ≡ false
  orphan_delete t h = ground (
    arith,
    any-delete (λ w. is_gone w.state && is_text t.lease_owner w.id) (is_expired_row gc) judged,
  )

  kept_clean :
      (keep : Bool) (stale : ℕ) (tasks : List Task)
      → All (λ t. is_orphan judged t ≡ false) tasks
      → All (λ w. is_silent stale w ≡ false) judged
      → let kept = if keep then delete (is_expired_row gc) judged else judged in
        All (λ t. is_orphan kept t ≡ false) tasks × All (λ w. is_silent stale w ≡ false) kept
  kept_clean true stale tasks h k = (
    All_map tasks orphan_delete h,
    All-delete (λ w. is_silent stale w ≡ false) (is_expired_row gc) judged k,
  )
  kept_clean false stale tasks h k = (h, k)

heal_clean :
    (like : String → String → Bool) (stale_after gc_after now : ℕ) (db : Db) (traces : Traces)
    → let db' = heal like stale_after gc_after now db traces in
      All (λ t. is_orphan db'.workers t ≡ false) db'.tasks
      × All (λ w. is_silent (now - seconds stale_after) w ≡ false) db'.workers
unfolding heal
heal_clean like stale_after gc_after now db traces =
    kept_clean (now - seconds gc_after) _ (ltb 0 gc_after) (now - seconds stale_after) _
      (All-update {P = λ t. Unit {0}}
        (is_orphan (judged like (now - seconds stale_after) now db traces)) release db.tasks
        (λ t _ _. ground arith) (λ t miss _. miss) (All_of (λ t. tt) db.tasks))
      (All-update {P = λ w. Unit {0}} (is_silent (now - seconds stale_after))
        (λ w. record w { state = dead }) _ (λ w _ _. refl) (λ w miss _. miss) (All_of (λ w. tt) _))

-- With trace tables, after `list_workers` no held task has an owner that is dead or stopped, and no
-- running worker's heartbeat is older than the stale window.
pub list_workers_heals :
    (like : String → String → Bool) (stale_after gc_after now : ℕ) (db : Db) (traces : Traces)
    → db.traces ≡ some traces
    → let db' = (list_workers like stale_after gc_after now db).1 in
      All (λ t. is_orphan db'.workers t ≡ false) db'.tasks
      × All (λ w. is_silent (now - seconds stale_after) w ≡ false) db'.workers
unfolding list_workers
list_workers_heals like stale_after gc_after now db traces e =
    rw (e, list_workers) (heal_clean like stale_after gc_after now db traces)

-- Without them the same call heals nothing.
pub list_workers_blind :
    (like : String → String → Bool) (stale_after gc_after now : ℕ) (db : Db)
    → db.traces ≡ none
    → (list_workers like stale_after gc_after now db).1 ≡ db
unfolding list_workers
list_workers_blind like stale_after gc_after now db e = elim_traces db.traces e
  where
    elim_traces :
        (o : Option Traces)
        → o ≡ none
        → elim o as (λ _. Db) [ none ↦ db | some t ↦ heal like stale_after gc_after now db t ] ≡ db
    elim_traces none q = refl
    elim_traces (some t) q = cc
