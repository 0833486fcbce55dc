-- ===== src/Pools.antt =====
-- quality_api/pools.py: `PoolStore`, and the supervisor that keeps the fleet of workers. The state of the
-- host is the queue's database, the table qa_worker_pools, the supervisor's two anchors, and the command
-- lines of the workers started so far. The wall clock and the monotonic clock are in microseconds.
pub mod Supervisor
pub mod Fleet
pub mod Store
pub mod Tests
use diff_graph.Base.{
  Bool, List, Option, String, [], false, if◌then◌else◌, is_some, keep_if, ltb, map, none, not, some,
  str_eq, ℕ, ◌++◌, ◌+◌, ◌==◌, ◌||◌, ◌∷◌,
}
use diff_graph.Queue.Rows.{Db}
use diff_graph.Table.{any_row, delete, find?, update}
use mathlib.Core.Option

pub record PoolConfig : Type 0 where
  pub id : ℕ
  pub name : String
  pub queue : String
  pub target_workers : ℕ
  pub trigger : String
  pub max_idle_seconds : ℕ
  pub task_timeout_seconds : ℕ
  pub bench_cmd : String
  pub enabled : Bool
  pub created_at : ℕ
  pub last_check_at : Option ℕ

pub record Host : Type 0 where
  pub db : Db
  pub pools : List PoolConfig
  pub next_pool : ℕ
  pub mono_anchor : Option ℕ
  pub wall_anchor : Option ℕ
  pub spawned : List String

-- The fields of `update`; `none` is a field that is not given, or given as None.
pub record PoolFields : Type 0 where
  pub name : Option String
  pub queue : Option String
  pub target_workers : Option ℕ
  pub trigger : Option String
  pub max_idle_seconds : Option ℕ
  pub task_timeout_seconds : Option ℕ
  pub bench_cmd : Option String
  pub enabled : Option Bool

-- The arguments of `add`.
pub record PoolSpec : Type 0 where
  pub name : String
  pub queue : String
  pub target_workers : ℕ
  pub trigger : String
  pub max_idle_seconds : ℕ
  pub task_timeout_seconds : ℕ
  pub bench_cmd : String
  pub enabled : Bool

abbrev pub is_pool : ℕ → PoolConfig → Bool
is_pool id p = p.id == id

-- `n or default`, and the same on texts.
abbrev pub or_number : ℕ → ℕ → ℕ
or_number n default = if n == 0 then default else n

abbrev or_text : String → String → String
or_text s default = if str_eq s "" then default else s

-- `_row_to_pool`.
unfoldable pub row_to_pool : PoolConfig → PoolConfig
row_to_pool p = record p {
  target_workers = or_number p.target_workers 1;
  trigger = or_text p.trigger "live_queue";
  max_idle_seconds = or_number p.max_idle_seconds 120;
  task_timeout_seconds = or_number p.task_timeout_seconds 900;
}

-- `none` is the ValueError.
unfoldable pub add : PoolSpec → ℕ → Host → Option (ℕ × Host)
add spec now host =
    let row : PoolConfig = record {
      id = host.next_pool;
      name = spec.name;
      queue = spec.queue;
      target_workers = spec.target_workers;
      trigger = spec.trigger;
      max_idle_seconds = spec.max_idle_seconds;
      task_timeout_seconds = spec.task_timeout_seconds;
      bench_cmd = spec.bench_cmd;
      enabled = spec.enabled;
      created_at = now;
      last_check_at = none;
    } in
    if str_eq spec.queue "" || ltb spec.target_workers 1 || not (str_eq spec.trigger "live_queue")
    then none
    else some (
      host.next_pool,
      record host { pools = host.pools ++ row ∷ []; next_pool = host.next_pool + 1 },
    )

abbrev set {ℓ} : {A : Type ℓ} → Option A → A → A
set none old = old
set (some new) old = new

abbrev pub apply_fields : PoolFields → PoolConfig → PoolConfig
apply_fields f p = record p {
  name = set f.name p.name;
  queue = set f.queue p.queue;
  target_workers = set f.target_workers p.target_workers;
  trigger = set f.trigger p.trigger;
  max_idle_seconds = set f.max_idle_seconds p.max_idle_seconds;
  task_timeout_seconds = set f.task_timeout_seconds p.task_timeout_seconds;
  bench_cmd = set f.bench_cmd p.bench_cmd;
  enabled = set f.enabled p.enabled;
}

abbrev pub has_fields : PoolFields → Bool
has_fields f =
    is_some f.name
    || is_some f.queue
    || is_some f.target_workers
    || is_some f.trigger
    || is_some f.max_idle_seconds
    || is_some f.task_timeout_seconds
    || is_some f.bench_cmd
    || is_some f.enabled

unfoldable pub update_pool : ℕ → PoolFields → Host → Bool × Host
update_pool id fields host =
    if has_fields fields
    then (
      any_row (is_pool id) host.pools,
      record host { pools = update (is_pool id) (apply_fields fields) host.pools },
    )
    else (false, host)

unfoldable pub delete_pool : ℕ → Host → Bool × Host
delete_pool id host =
    (any_row (is_pool id) host.pools, record host { pools = delete (is_pool id) host.pools })

-- `list`, in the order of the ids, which is that of the rows.
unfoldable pub list_pools : Bool → Host → List PoolConfig
list_pools only_enabled host =
    map row_to_pool (keep_if (λ p. not only_enabled || p.enabled) host.pools)

unfoldable pub get_pool : ℕ → Host → Option PoolConfig
get_pool id host = Option.map row_to_pool (find? (is_pool id) host.pools)
