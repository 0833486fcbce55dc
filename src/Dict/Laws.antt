-- ===== src/Dict/Laws.antt =====
-- What the operations on dictionaries do to a lookup.
use diff_graph.Base.{
  List, String, [], arith, eq_iff, if◌then◌else◌, none, refl, some, str_eq, true, ◌∙◌, ◌∷◌, ◌≡◌,
}
use diff_graph.Dict.{get?, has_key, set_key, update_keys, without}

module _ {ℓ} {V : Type ℓ} where
  pub get-set_key :
      (k j : String) (v : V) (d : List (String × V))
      → get? j (set_key k v d) ≡ (if str_eq k j then some v else get? j d)
  unfolding get? set_key
  get-set_key k j v [] = refl
  get-set_key k j v ((i, w) ∷ d) =
      ground (arith, eq_iff k j, eq_iff i k, eq_iff i j, get-set_key k j v d)

  pub get-without :
      (k j : String) (d : List (String × V))
      → get? j (without k d) ≡ (if str_eq k j then none else get? j d)
  unfolding get? without
  get-without k j [] = ground arith
  get-without k j ((i, w) ∷ d) =
      ground (arith, eq_iff k j, eq_iff i k, eq_iff i j, get-without k j d)

  pub has-set_key :
      (k j : String) (v : V) (d : List (String × V))
      → has_key j (set_key k v d) ≡ (if str_eq k j then true else has_key j d)
  has-set_key k j v d = ground (arith, get-set_key k j v d)

  -- What one of two dictionaries has, the update has.
  pub has-update_keys :
      (k : String) (d more : List (String × V))
      → has_key k (update_keys d more) ≡ (if has_key k more then true else has_key k d)
  unfolding get? update_keys
  has-update_keys k d [] = refl
  has-update_keys k d ((j, v) ∷ more) =
      has-update_keys k (set_key j v d) more ∙ ground (arith, has-set_key j k v d)
