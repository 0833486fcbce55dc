-- ===== src/Pools/Supervisor.antt =====
-- `WorkerSupervisor`: one tick, and what it does for each pool. The default bench command, the path of
-- the command line tool, `shlex.quote` and SQLite's LIKE are parameters. A subprocess that is started is its
-- command line.
use diff_graph.Base.{
  Bool, List, Option, String, [], count_if, decimal, false, if◌then◌else◌, ltb, none, not, some,
  str_eq, suc, true, zero, ℕ, ◌&&◌, ◌++◌, ◌+◌, ◌-◌, ◌<>◌, ◌==◌, ◌∷◌,
}
use diff_graph.Pools.{Db, Host, PoolConfig, is_pool, list_pools, update}
use diff_graph.Queue.Lease.{force_release_all_leases, is_due, reap_stale_leases}
use diff_graph.Queue.Rows.{
  Db, Task, Worker, default_heartbeat_grace_seconds, is_agent, is_queued, seconds,
}
use diff_graph.Queue.Workers.{is_working, list_workers}
use diff_graph.Table.{update}

-- A first call only sets the anchors. `wall - wall_anchor - (mono - mono_anchor) > 60.0`, with the
-- negative terms on the other side.
abbrev drifted : Option ℕ → Option ℕ → ℕ → ℕ → Bool
drifted none anchor mono wall = false
drifted (some m) none mono wall = false
drifted (some m) (some w) mono wall = ltb (seconds 60 + w + mono) (wall + m)

unfoldable pub detect_sleep_wake : ℕ → ℕ → Host → Bool × Host
detect_sleep_wake mono wall host = (
  drifted host.mono_anchor host.wall_anchor mono wall,
  record host { mono_anchor = some mono; wall_anchor = some wall },
)

-- The query of `_reconcile`.
abbrev pub is_ready : String → ℕ → Task → Bool
is_ready queue now t =
    is_queued t.state && str_eq t.queue queue && is_agent t.kind && is_due t.not_before now

abbrev pub is_alive : String → Worker → Bool
is_alive queue w = str_eq w.queue queue && is_working w

-- `for _ in range(n)` around a step that appends.
abbrev pub repeated : ℕ → String → List String
repeated zero line = []
repeated (suc n) line = line ∷ repeated n line

module _ (like : String → String → Bool) (quote : String → String)
    (cli default_bench : String) where
  -- `_spawn_worker`: the command line.
  abbrev pub command : PoolConfig → String
  command p =
      cli
      <> " --json worker --queue="
      <> quote p.queue
      <> " --max-idle-seconds="
      <> decimal p.max_idle_seconds
      <> " --task-timeout-seconds="
      <> decimal p.task_timeout_seconds
      <> " --max-tasks=0 --bench-cmd="
      <> quote (if str_eq p.bench_cmd "" then default_bench else p.bench_cmd)

  -- `list_workers()` with its defaults.
  abbrev pub list_fleet : ℕ → Db → List Worker × Db
  list_fleet now db = list_workers like 90 3600 now db

  unfoldable pub reconcile : ℕ → PoolConfig → Host → Host
  reconcile now pool host =
      let fleet = list_fleet now host.db in
      let alive = count_if (is_alive pool.queue) fleet.0 in
      if not (str_eq pool.trigger "live_queue")
      then host
      else if count_if (is_ready pool.queue now) host.db.tasks == 0
      then host
      else record host {
        db = fleet.1;
        spawned = host.spawned ++ repeated (pool.target_workers - alive) (command pool);
      }

  abbrev pub checked : ℕ → ℕ → Host → Host
  checked now id host = record host {
    pools = update (is_pool id) (λ p. record p { last_check_at = some now }) host.pools;
  }

  unfoldable pub reconcile_all : ℕ → List PoolConfig → Host → Host
  reconcile_all now [] host = host
  reconcile_all now (p ∷ ps) host = reconcile_all now ps (checked now p.id (reconcile now p host))

  -- The first three steps of a tick: the leases after a sleep, the reaper, the fleet.
  unfoldable pub stabilise : ℕ → ℕ → Host → Host
  stabilise mono now host =
      let slept = detect_sleep_wake mono now host in
      let db = slept.1.db in
      let released = if slept.0 then (force_release_all_leases "sleep_wake" db).1 else db in
      let reaped = (reap_stale_leases default_heartbeat_grace_seconds now released).1 in
      record slept.1 { db = (list_fleet now reaped).1 }

  unfoldable pub tick : ℕ → ℕ → Host → Host
  tick mono now host =
      let stable = stabilise mono now host in reconcile_all now (list_pools true stable) stable
