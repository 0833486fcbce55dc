-- ===== src/Pools/Fleet.antt =====
-- What a tick of the supervisor does to the tasks and the fleet.
use diff_graph.Base.{
  All, All_of, Bool, Bool-cases, List, Option-cases, String, [], arith, count_if, false,
  if◌then◌else◌, inl, inr, length, length-append, refl, str_eq, suc, true, zero, ℕ, ◌+◌, ◌-◌, ◌==◌,
  ◌∷◌, ◌≡◌, ◌≤◌,
}
use diff_graph.Pools.{Host, PoolConfig, list_pools}
use diff_graph.Pools.Supervisor.{
  checked, command, detect_sleep_wake, is_alive, is_ready, list_fleet, reconcile, reconcile_all,
  repeated, stabilise, tick,
}
use diff_graph.Queue.Invariant.{IsValid}
use diff_graph.Queue.Lease.{force_release_all_leases, reap_stale_leases}
use diff_graph.Queue.Rows.{Db, default_heartbeat_grace_seconds, is_held}
use diff_graph.Queue.Steps.{Step, Step-IsValid}
use diff_graph.Queue.Workers.{heal, list_workers}
use diff_graph.Table.Laws.{All-update}

-- No task is leased or running.
abbrev pub IsIdle : Db → Type 0
IsIdle db = All (λ t. is_held t.state ≡ false) db.tasks

force_release-IsIdle : (reason : String) (db : Db) → IsIdle (force_release_all_leases reason db).1
unfolding force_release_all_leases
force_release-IsIdle reason db =
    All-update {P = λ t. Unit {0}} _ _ db.tasks (λ r p u. refl) (λ r p u. p)
      (All_of (λ r. tt) db.tasks)

reap-IsIdle : (grace now : ℕ) (db : Db) → IsIdle db → IsIdle (reap_stale_leases grace now db).1
unfolding reap_stale_leases
reap-IsIdle grace now db h =
    All-update {P = λ t. is_held t.state ≡ false} _ _ db.tasks (λ r p u. refl) (λ r p u. u) h

-- The sum of the targets.
abbrev pub total_target : List PoolConfig → ℕ
total_target [] = 0
total_target (p ∷ ps) = p.target_workers + total_target ps

length-repeated : (n : ℕ) (line : String) → length (repeated n line) ≡ n
length-repeated zero line = refl
length-repeated (suc n) line = omega (arith, length-repeated n line)

module _ (like : String → String → Bool) (quote : String → String)
    (cli default_bench : String) where
  list_fleet-IsIdle :
      (now : ℕ) (db : Db) → IsIdle db → IsIdle (list_fleet like quote cli default_bench now db).1
  unfolding list_workers heal
  list_fleet-IsIdle now db h = elim (Option-cases db.traces) [
    | inl e ↦ rw (e, list_workers) h
    | inr (t, e) ↦
        rw (e, list_workers)
          (All-update {P = λ t. is_held t.state ≡ false} _ _ db.tasks (λ r p u. refl) (λ r p u. u)
            h)
  ]

  -- What the listing of the fleet keeps, the passes over the pools keep.
  module _ {κ} (P : Db → Type κ)
      (keeps : (now : ℕ) (db : Db)
        → P db
        → P (list_fleet like quote cli default_bench now db).1) where
    reconcile_keeps :
        (now : ℕ) (pool : PoolConfig) (host : Host)
        → P host.db
        → P (reconcile like quote cli default_bench now pool host).db
    unfolding reconcile
    reconcile_keeps now pool host h = elim (Bool-cases (str_eq pool.trigger "live_queue")) [
      | inr e ↦ rw (e, reconcile) h
      | inl e ↦ elim (Bool-cases (count_if (is_ready pool.queue now) host.db.tasks == 0)) [
        | inl f ↦ rw (e, f, reconcile) h
        | inr f ↦ rw (e, f, reconcile) (keeps now host.db h)
      ]
    ]

    reconcile_all_keeps :
        (now : ℕ) (ps : List PoolConfig) (host : Host)
        → P host.db
        → P (reconcile_all like quote cli default_bench now ps host).db
    unfolding reconcile_all
    reconcile_all_keeps now [] host h = h
    reconcile_all_keeps now (p ∷ ps) host h =
        reconcile_all_keeps now ps _ (reconcile_keeps now p host h)

  length-reconcile :
      (now : ℕ) (pool : PoolConfig) (host : Host)
      → length (reconcile like quote cli default_bench now pool host).spawned
        ≤ length host.spawned + pool.target_workers
  unfolding reconcile
  length-reconcile now pool host =
      let line = command like quote cli default_bench pool in
      let alive =
        count_if (is_alive pool.queue) (list_fleet like quote cli default_bench now host.db).0 in
      let split = length-append host.spawned (repeated (pool.target_workers - alive) line) in
      let rounds = length-repeated (pool.target_workers - alive) line in
      ground (arith, split, rounds)

  length-reconcile_all :
      (now : ℕ) (ps : List PoolConfig) (host : Host)
      → length (reconcile_all like quote cli default_bench now ps host).spawned
        ≤ length host.spawned + total_target ps
  unfolding reconcile_all
  length-reconcile_all now [] host = omega arith
  length-reconcile_all now (p ∷ ps) host =
      let next = reconcile like quote cli default_bench now p host in
      let first = length-reconcile now p host in
      let rest = length-reconcile_all now ps (checked like quote cli default_bench now p.id next) in
      omega (arith, first, rest)

  -- A tick keeps the database of the queue valid.
  pub tick-IsValid :
      (mono now : ℕ) (host : Host)
      → IsValid host.db
      → IsValid (tick like quote cli default_bench mono now host).db
  unfolding tick stabilise detect_sleep_wake
  tick-IsValid mono now host v =
      let released : IsValid (
          if (detect_sleep_wake mono now host).0
          then (force_release_all_leases "sleep_wake" host.db).1
          else host.db) =
        elim (Bool-cases (detect_sleep_wake mono now host).0) [
          | inl e ↦ rw e (Step-IsValid (Step.forces "sleep_wake") v)
          | inr e ↦ rw e v
        ] in
      reconcile_all_keeps IsValid (λ n db u. Step-IsValid (Step.lists like 90 3600 n) u) now _ _
        (Step-IsValid (Step.lists like 90 3600 now)
          (Step-IsValid (Step.reaps default_heartbeat_grace_seconds now) released))

  -- After a tick that detects that the host slept, no task is leased or running, whatever the pools are.
  pub tick-IsIdle :
      (mono now : ℕ) (host : Host)
      → (detect_sleep_wake mono now host).0 ≡ true
      → IsIdle (tick like quote cli default_bench mono now host).db
  unfolding tick stabilise detect_sleep_wake
  tick-IsIdle mono now host e = reconcile_all_keeps IsIdle list_fleet-IsIdle now _ _ (
      list_fleet-IsIdle now _ (
        reap-IsIdle default_heartbeat_grace_seconds now _
          (rw e (force_release-IsIdle "sleep_wake" host.db))))

  -- One tick starts at most as many workers as the targets of the enabled pools add up to.
  pub tick_bound :
      (mono now : ℕ) (host : Host)
      → length (tick like quote cli default_bench mono now host).spawned
        ≤ length host.spawned + total_target (list_pools true host)
  unfolding tick stabilise detect_sleep_wake list_pools
  tick_bound mono now host = length-reconcile_all now _ _
