-- ===== src/Children/Spawning/Scope.antt =====
-- What a child inherits.
use diff_graph.Base.{
  Bool-cases, String, [], ap, arith, eq_iff, false, if◌then◌else◌, inl, inr, none, refl, some,
  str_eq, true, ◌&&◌, ◌∙◌, ◌∷◌, ◌≡◌,
}
use diff_graph.Children.Spawning.{SpawnSpec, resolve_data_inheritance, resolved_data}
use diff_graph.Dict.{get?, has_key, set_key, update_keys}
use diff_graph.Dict.Laws.{get-set_key}
use diff_graph.Json.{Dict, is_truthy}
use diff_graph.Tools.{Libraries}

module _ (libs : Libraries) (lower : String → String) where
  has-resolve_data_inheritance :
      (k : String) (items : Dict)
      → has_key k (resolve_data_inheritance libs lower items) ≡ has_key k items
  unfolding resolve_data_inheritance get?
  has-resolve_data_inheritance k [] = refl
  has-resolve_data_inheritance k ((j, v) ∷ items) = elim (Bool-cases (str_eq j k)) [
    | inl e ↦ rw e refl
    | inr e ↦ rw e (has-resolve_data_inheritance k items)
  ]

  get-update_other :
      (k : String) (d more : Dict) → has_key k more ≡ false → get? k (update_keys d more) ≡ get? k d
  unfolding update_keys get?
  get-update_other k d [] h = refl
  get-update_other k d ((j, v) ∷ more) h = elim (Bool-cases (str_eq j k)) [
    | inl e ↦ let never : true ≡ false = rw e at h in cc
    | inr e ↦ get-update_other k (set_key j v d) more (rw e at h) ∙ get-set_key j k v d ∙ rw e refl
  ]

  -- For a key that the call's `data` does not have, the child has the parent's value if the parent has one, the call's
  -- focus included: it is the child's focus only if the parent has none.
  pub resolved_data_inherits :
      (scope : Dict) (spec : SpawnSpec) (k : String)
      → has_key k spec.spec_data ≡ false
      → get? k (resolved_data libs lower scope spec) ≡ (
          if has_key k scope
          then get? k scope
          else if is_truthy spec.focus && str_eq "focus" k
          then some spec.focus
          else none)
  unfolding resolved_data
  resolved_data_inherits scope spec k h =
      let items = resolve_data_inheritance libs lower spec.spec_data in
      let merged = update_keys scope items in
      let kept =
        get-update_other k scope items (has-resolve_data_inheritance k spec.spec_data ∙ h) in
      let put = get-set_key "focus" k spec.focus merged in
      elim (Bool-cases (str_eq "focus" k)) [
        | inl f ↦
            let same : has_key "focus" merged ≡ has_key k merged =
              ap (λ i. has_key i merged) ((eq_iff "focus" k).0 f) in
            ground (arith, kept, put, same, f)
        | inr f ↦ ground (arith, kept, put, f)
      ]
