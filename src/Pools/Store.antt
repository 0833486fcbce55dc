-- ===== src/Pools/Store.antt =====
-- What `PoolStore` reads back of what it wrote.
use diff_graph.Base.{arith, refl, some, true, ℕ, ◌≡◌, ◌≤◌}
use diff_graph.Pools.{
  Host, PoolConfig, PoolFields, apply_fields, find?, get_pool, has_fields, is_pool, row_to_pool,
  update_pool, ℕ,
}
use diff_graph.Table.{find?}
use diff_graph.Table.Lookup.{find?-update}

-- An update that gives some field changes the pool, and `get` reads the fields given, the others as they
-- were, but a number 0 and an empty trigger as the defaults: so a target of 0 is read as 1.
pub get_pool-update_pool :
    (id : ℕ) (fields : PoolFields) (host : Host) (pool : PoolConfig)
    → has_fields fields ≡ true
    → find? (is_pool id) host.pools ≡ some pool
    → (get_pool id (update_pool id fields host).1 ≡ some (row_to_pool (apply_fields fields pool)))
      × (1 ≤ (row_to_pool (apply_fields fields pool)).target_workers)
unfolding get_pool update_pool row_to_pool
get_pool-update_pool id fields host pool given found =
    let read =
      find?-update (is_pool id) (is_pool id) (apply_fields fields) host.pools (λ r. refl)
        (λ r e. e) in
    (rw given (rw read (rw found refl)), ground arith)
