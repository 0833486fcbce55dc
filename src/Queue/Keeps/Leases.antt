-- ===== src/Queue/Keeps/Leases.antt =====
-- Enqueueing, leasing and releasing keep `IsValid`.
use diff_graph.Base.{
  ==_iff, All, All-append, All_map, All_zip, Bool, Option-cases, String, arith, inl, inr, refl, sym,
  true, ℕ, ◌+◌, ◌≡◌,
}
use diff_graph.Queue.Enqueue.{enqueue, new_task}
use diff_graph.Queue.Ids.{Ascends-snoc, unique_of_mem}
use diff_graph.Queue.Invariant.{IsValid, IsValid-update, IsValidTask, IsValidTask-new_task}
use diff_graph.Queue.Lease.{
  beat, cancel_row, claim, force_release_all_leases, heartbeat, is_beating, is_eligible, lease,
  precedes, reap_stale_leases, set_task_trace_run_id,
}
use diff_graph.Queue.Rows.{Db, Task, TaskSpec, has_id, is_waiting, release, seconds}
use diff_graph.Table.{first_by, update}
use diff_graph.Table.Choice.{first_by_holds, mem-first_by}
use diff_graph.Table.Laws.{All-update, map-update}
use mathlib.Core.Path.{subst}
use diff_graph.Queue.Lease

pub enqueue-IsValid :
    (spec : TaskSpec) (now : ℕ) (db : Db)
    → is_waiting spec.initial_state ≡ true
    → IsValid db
    → IsValid (enqueue spec now db).1
unfolding enqueue
enqueue-IsValid spec now db w v = record {
  ascending =
      Ascends-snoc 1 db.next_task db.tasks (new_task db.next_task spec now) refl v.ascending;
  rows =
      All-append IsValidTask db.tasks _ v.rows (IsValidTask-new_task db.next_task spec now w, tt);
}

pub release-IsValidTask : (t : Task) → IsValidTask t → IsValidTask (release t)
release-IsValidTask t v = ground arith

beat-IsValidTask :
    (id : ℕ) (worker : String) (expires : ℕ) (t : Task)
    → is_beating id worker t ≡ true
    → IsValidTask t
    → IsValidTask (beat expires t)
beat-IsValidTask id worker expires t h v = ground arith

pub cancel_row-IsValidTask : (now : ℕ) (t : Task) → IsValidTask t → IsValidTask (cancel_row now t)
cancel_row-IsValidTask now t v = ground arith

pub heartbeat-IsValid :
    (id : ℕ) (worker : String) (lease_seconds now : ℕ) (db : Db)
    → IsValid db
    → IsValid (heartbeat id worker lease_seconds now db).1
unfolding heartbeat
heartbeat-IsValid id worker lease_seconds now db v =
    IsValid-update db v _ _ (λ t. refl) (beat-IsValidTask id worker (now + seconds lease_seconds))

pub set_task_trace_run_id-IsValid :
    (id : ℕ) (run : String) (db : Db) → IsValid db → IsValid (set_task_trace_run_id id run db).1
unfolding set_task_trace_run_id
set_task_trace_run_id-IsValid id run db v =
    IsValid-update db v _ _ (λ t. refl) (λ t _ h. ground arith)

pub cancel-IsValid : (id now : ℕ) (db : Db) → IsValid db → IsValid (Lease.cancel id now db).1
unfolding Lease.cancel
cancel-IsValid id now db v =
    IsValid-update db v _ _ (λ t. refl) (λ t _ h. cancel_row-IsValidTask now t h)

pub force_release_all_leases-IsValid :
    (reason : String) (db : Db) → IsValid db → IsValid (force_release_all_leases reason db).1
unfolding force_release_all_leases
force_release_all_leases-IsValid reason db v =
    IsValid-update db v _ _ (λ t. refl) (λ t _ h. ground arith)

pub reap_stale_leases-IsValid :
    (grace now : ℕ) (db : Db) → IsValid db → IsValid (reap_stale_leases grace now db).1
unfolding reap_stale_leases
reap_stale_leases-IsValid grace now db v =
    IsValid-update db v _ _ (λ t. refl) (λ t _ h. release-IsValidTask t h)

-- What a statement sees of a row that passes its test, where the id is the row's own.
module _ (db : Db) (v : IsValid db) (p : Task → Bool) (f : Task → Task) where
  -- As `IsValid-update`, where the rows that change all are the one row `t`.
  pub IsValid-update_one :
      (t : Task)
      → All (λ r. p r ≡ true → r ≡ t) db.tasks
      → ((r : Task) → (f r).id ≡ r.id)
      → (IsValidTask t → IsValidTask (f t))
      → IsValid (record db { tasks = update p f db.tasks })
  IsValid-update_one t only same keep = record {
    ascending = rw (map-update (λ (r : Task). r.id) p f db.tasks same) v.ascending;
    rows =
        All-update {P = λ r. IsValidTask r × (p r ≡ true → r ≡ t)} p f db.tasks
          (λ r hit h.
            let e : r ≡ t = h.1 hit in
            subst (λ x. IsValidTask (f x)) (sym e) (keep (subst IsValidTask e h.0)))
          (λ r _ h. h.0) (All_zip IsValidTask (λ r. p r ≡ true → r ≡ t) db.tasks v.rows only);
  }

pub lease-IsValid :
    (queue worker : String) (lease_seconds now : ℕ) (db : Db)
    → IsValid db
    → IsValid (lease queue worker lease_seconds now db).1
unfolding lease
lease-IsValid queue worker lease_seconds now db v =
    elim (Option-cases (first_by precedes (is_eligible queue now) db.tasks)) [
      | inl e ↦ rw (e, lease) v
      | inr (t, e) ↦
          rw (e, lease)
            (IsValid-update_one db v (has_id t.id) (claim worker (now + seconds lease_seconds) now)
              t
              (All_map db.tasks (λ r same hit. same ((==_iff r.id t.id).0 hit))
                (unique_of_mem 1 db.next_task db.tasks t v.ascending
                  (mem-first_by precedes (is_eligible queue now) db.tasks t e)))
              (λ r. refl)
              (λ h.
                claim-IsValidTask t (first_by_holds precedes (is_eligible queue now) db.tasks t e)
                  h))
    ]
  where
    claim-IsValidTask :
        (t : Task)
        → is_eligible queue now t ≡ true
        → IsValidTask t
        → IsValidTask (claim worker (now + seconds lease_seconds) now t)
    claim-IsValidTask t eligible h = ground arith
