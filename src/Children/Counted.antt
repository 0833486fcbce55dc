-- ===== src/Children/Counted.antt =====
-- How often an id is spawned, queued and reported, and what each call of the parent and each end of a child does
-- to these counts (orchestra/agent.py).
use diff_graph.Base.{
  Bool, Bool-cases, List, String, [], any-append, ap, arith, count_if, count_if-append, eq_iff,
  false, if◌then◌else◌, inl, inr, keep_if, ltb, not, refl, str_eq, sym, true, ℕ, ◌&&◌, ◌*◌, ◌++◌,
  ◌+◌, ◌||◌, ◌∙◌, ◌∷◌, ◌≡◌, ◌≤◌,
}
use diff_graph.Children.{
  Family, add_id, add_ids, await_targets, collect, drain_async_callbacks, ids_of, is_finished,
  is_in, push_result, spawn_async, store_result,
}
use diff_graph.Dict.{has_key}
use diff_graph.Dict.Laws.{has-set_key}

-- How often an id is listed.
abbrev pub times : String → List String → ℕ
times id ids = count_if (λ i. str_eq i id) ids

abbrev pub flag : Bool → ℕ
flag b = if b then 1 else 0

pub times-append : (k : String) (xs ys : List String) → times k (xs ++ ys) ≡ times k xs + times k ys
times-append k xs ys = count_if-append (λ i. str_eq i k) xs ys

pub times-snoc :
    (k id : String) (xs : List String) → times k (xs ++ id ∷ []) ≡ times k xs + flag (str_eq id k)
times-snoc k id xs = times-append k xs (id ∷ []) ∙ omega arith

pub is_in-times : (k : String) (xs : List String) → is_in k xs ≡ ltb 0 (times k xs)
is_in-times k [] = refl
is_in-times k (x ∷ xs) = ground (arith, is_in-times k xs)

pub times-keep_if :
    (p : String → Bool) (k : String) (xs : List String)
    → times k (keep_if p xs) ≡ (if p k then times k xs else 0)
times-keep_if p k [] = ground arith
times-keep_if p k (x ∷ xs) = elim (Bool-cases (str_eq x k)) [
  | inl e ↦
      let same : p x ≡ p k = ap p ((eq_iff x k).0 e) in
      ground (arith, e, same, times-keep_if p k xs)
  | inr e ↦ ground (arith, e, times-keep_if p k xs)
]

pub is_in-add_id :
    (k id : String) (xs : List String) → is_in k (add_id id xs) ≡ (str_eq id k || is_in k xs)
is_in-add_id k id xs = elim (Bool-cases (is_in id xs)) [
  | inl e ↦ elim (Bool-cases (str_eq id k)) [
    | inl same ↦
        let here : is_in k xs ≡ true = ap (λ i. is_in i xs) (sym ((eq_iff id k).0 same)) ∙ e in
        rw (e, same) here
    | inr other ↦ rw (e, other) refl
  ]
  | inr e ↦ let joined = any-append (λ i. str_eq i k) xs (id ∷ []) in rw e (ground (arith, joined))
]

pub is_in-add_ids :
    (k : String) (more ids : List String)
    → is_in k (add_ids more ids) ≡ (is_in k more || is_in k ids)
is_in-add_ids k [] ids = refl
is_in-add_ids k (id ∷ more) ids =
    ground (arith, is_in-add_ids k more (add_id id ids), is_in-add_id k id ids)

module _ (R : Type 0) where
  pub times-drop :
      (p : String → Bool) (k : String) (queue : List (String × R))
      → times k (ids_of (keep_if (λ e. p e.0) queue)) ≡ (if p k then times k (ids_of queue) else 0)
  times-drop p k [] = ground arith
  times-drop p k (x ∷ queue) = elim (Bool-cases (str_eq x.0 k)) [
    | inl e ↦
        let same : p x.0 ≡ p k = ap p ((eq_iff x.0 k).0 e) in
        ground (arith, e, same, times-drop p k queue)
    | inr e ↦ ground (arith, e, times-drop p k queue)
  ]

  pub ids_of-snoc :
      (queue : List (String × R)) (id : String) (result : R)
      → ids_of (queue ++ (id, result) ∷ []) ≡ ids_of queue ++ id ∷ []
  ids_of-snoc [] id result = refl
  ids_of-snoc (x ∷ queue) id result = ap (λ rest. x.0 ∷ rest) (ids_of-snoc queue id result)

  -- What holds of each id, with the ids that an await has reported before their children called back.
  pub record IsCounted (k : String) (overtaken : List String) (s : Family R) : Type 0 where
    pub spawned_once : times k s.async_spawned ≤ 1
    pub finished : flag (has_key k s.children_results) ≤ times k s.async_spawned
    pub heard : times k s.called_back ≤ flag (has_key k s.children_results)
    pub queued : times k (ids_of s.async_results_queue) ≤ times k s.called_back
    pub overtaken_once : times k overtaken ≤ flag (is_in k s.async_collected)
    pub counted :
        times k s.reported + times k (ids_of s.async_results_queue)
        ≡ times k s.called_back + times k overtaken
    pub known : flag (is_in k s.async_collected) ≤ times k s.reported
    pub told : times k s.reported ≤ 2 * flag (is_in k s.async_collected)

  pub spawn-IsCounted :
      (k id : String) (overtaken : List String) (s : Family R)
      → is_in id s.async_spawned ≡ false
      → IsCounted k overtaken s
      → IsCounted k overtaken (spawn_async R id s)
  spawn-IsCounted k id overtaken s fresh c = record {
    spawned_once = elim (Bool-cases (str_eq id k)) [
      | inl e ↦
          let none : is_in k s.async_spawned ≡ false =
            ap (λ i. is_in i s.async_spawned) (sym ((eq_iff id k).0 e)) ∙ fresh in
          let listed = is_in-times k s.async_spawned in
          ground (arith, e, none, listed, times-snoc k id s.async_spawned)
      | inr e ↦ ground (arith, e, c.spawned_once, times-snoc k id s.async_spawned)
    ];
    finished = ground (arith, c.finished, times-snoc k id s.async_spawned);
    heard = c.heard;
    queued = c.queued;
    overtaken_once = c.overtaken_once;
    counted = c.counted;
    known = c.known;
    told = c.told;
  }

  pub store-IsCounted :
      (k id : String) (result : R) (overtaken : List String) (s : Family R)
      → is_in id s.async_spawned ≡ true
      → IsCounted k overtaken s
      → IsCounted k overtaken (store_result R id result s)
  store-IsCounted k id result overtaken s spawned c =
      let stored = has-set_key id k result s.children_results in
      record {
        spawned_once = c.spawned_once;
        finished = elim (Bool-cases (str_eq id k)) [
          | inl e ↦
              let listed : is_in k s.async_spawned ≡ true =
                ap (λ i. is_in i s.async_spawned) (sym ((eq_iff id k).0 e)) ∙ spawned in
              ground (arith, e, stored, listed, is_in-times k s.async_spawned)
          | inr e ↦ ground (arith, e, stored, c.finished)
        ];
        heard = ground (arith, stored, c.heard);
        queued = c.queued;
        overtaken_once = c.overtaken_once;
        counted = c.counted;
        known = c.known;
        told = c.told;
      }

  pub push-IsCounted :
      (k id : String) (result : R) (overtaken : List String) (s : Family R)
      → has_key id s.children_results ≡ true
      → is_in id s.called_back ≡ false
      → IsCounted k overtaken s
      → IsCounted k overtaken (push_result R id result s)
  push-IsCounted k id result overtaken s stored silent c =
      let pushed =
        ap (times k) (ids_of-snoc s.async_results_queue id result)
        ∙ times-snoc k id (ids_of s.async_results_queue) in
      let back = times-snoc k id s.called_back in
      record {
        spawned_once = c.spawned_once;
        finished = c.finished;
        heard = elim (Bool-cases (str_eq id k)) [
          | inl e ↦
              let same = (eq_iff id k).0 e in
              let has : has_key k s.children_results ≡ true =
                ap (λ i. has_key i s.children_results) (sym same) ∙ stored in
              let none : is_in k s.called_back ≡ false =
                ap (λ i. is_in i s.called_back) (sym same) ∙ silent in
              ground (arith, e, has, none, is_in-times k s.called_back, back)
          | inr e ↦ ground (arith, e, back, c.heard)
        ];
        queued = ground (arith, pushed, back, c.queued);
        overtaken_once = c.overtaken_once;
        counted = ground (arith, pushed, back, c.counted);
        known = c.known;
        told = c.told;
      }

  pub drain-IsCounted :
      (k : String) (overtaken : List String) (s : Family R)
      → IsCounted k overtaken s
      → IsCounted k overtaken (drain_async_callbacks R s).1
  unfolding drain_async_callbacks
  drain-IsCounted k overtaken s c =
      let ids = ids_of s.async_results_queue in
      let said = times-append k s.reported ids in
      let inside = is_in-add_ids k ids s.async_collected in
      let listed = is_in-times k ids in
      record {
        spawned_once = c.spawned_once;
        finished = c.finished;
        heard = c.heard;
        queued = omega arith;
        overtaken_once = ground (arith, inside, c.overtaken_once);
        counted = omega (arith, said, c.counted);
        known = ground (arith, said, inside, listed, c.known);
        told =
            ground
              (arith, said, inside, listed, c.told, c.counted, c.overtaken_once, c.queued, c.heard);
      }

  -- The ids that an await of all children collects.
  abbrev pub collected_now : Family R → List String
  collected_now s = keep_if (is_finished R s) (await_targets R "" s)

  pub times-collected_now :
      (k : String) (s : Family R)
      → times k (collected_now s) ≡ (
          if has_key k s.children_results && not (is_in k s.async_collected)
          then times k s.async_spawned
          else 0)
  times-collected_now k s =
      let kept = times-keep_if (is_finished R s) k (await_targets R "" s) in
      let open_ones = times-keep_if (λ id. not (is_in id s.async_collected)) k s.async_spawned in
      ground (arith, kept, open_ones)

  -- Those of them whose children have not called back yet.
  abbrev pub overtaken_now : Family R → List String
  overtaken_now s = keep_if (λ id. not (is_in id s.called_back)) (collected_now s)

  pub await-IsCounted :
      (k : String) (overtaken : List String) (s : Family R)
      → IsCounted k overtaken s
      → IsCounted k (overtaken ++ overtaken_now s) (collect R (await_targets R "" s) s).1
  unfolding collect
  await-IsCounted k overtaken s c =
      let now = collected_now s in
      let count = times-collected_now k s in
      let said = times-append k s.reported now in
      let inside = is_in-add_ids k now s.async_collected in
      let listed = is_in-times k now in
      let back = is_in-times k s.called_back in
      let left = times-drop (λ id. not (is_in id now)) k s.async_results_queue in
      let early = times-keep_if (λ id. not (is_in id s.called_back)) k now in
      let more = times-append k overtaken (overtaken_now s) in
      record {
        spawned_once = c.spawned_once;
        finished = c.finished;
        heard = c.heard;
        queued = ground (arith, left, c.queued);
        overtaken_once = ground (
          arith, more, early, inside, listed, count, c.overtaken_once, c.finished, c.spawned_once,
        );
        counted = ground (
          arith, more, early, back, left, listed, said, count, c.told, c.counted, c.overtaken_once,
          c.finished, c.spawned_once, c.heard,
        );
        known = ground (arith, inside, listed, said, c.known);
        told = ground (arith, inside, listed, said, count, c.told, c.finished, c.spawned_once);
      }
