-- ===== src/Dict.antt =====
-- Python's dictionaries with texts for keys, as lists of their entries in the order of insertion.
pub mod Laws
use diff_graph.Base.{
  Bool, List, Option, String, [], false, if◌then◌else◌, is_some, keep_if, map, none, not, some,
  str_eq, true, ◌∷◌,
}

module _ {ℓ} {V : Type ℓ} where
  -- `d.get(k)`.
  unfoldable pub get? : String → List (String × V) → Option V
  get? k [] = none
  get? k ((j, v) ∷ d) = if str_eq j k then some v else get? k d

  -- `k in d`.
  abbrev pub has_key : String → List (String × V) → Bool
  has_key k d = is_some (get? k d)

  -- `d[k] = v`: an entry keeps its place, a new one comes last.
  unfoldable pub set_key : String → V → List (String × V) → List (String × V)
  set_key k v [] = (k, v) ∷ []
  set_key k v ((j, w) ∷ d) = if str_eq j k then (j, v) ∷ d else (j, w) ∷ set_key k v d

  -- `d.update(more)`.
  unfoldable pub update_keys : List (String × V) → List (String × V) → List (String × V)
  update_keys d [] = d
  update_keys d ((k, v) ∷ more) = update_keys (set_key k v d) more

  -- `{j: v for j, v in d.items() if j != k}`.
  unfoldable pub without : String → List (String × V) → List (String × V)
  without k [] = []
  without k ((j, v) ∷ d) = if str_eq j k then without k d else (j, v) ∷ without k d

  -- `{k: v for k, v in d.items() if k in names}`.
  unfoldable pub only : (String → Bool) → List (String × V) → List (String × V)
  only p [] = []
  only p ((k, v) ∷ d) = if p k then (k, v) ∷ only p d else only p d

  -- `list(d.keys())`.
  abbrev pub keys : List (String × V) → List String
  keys d = map (λ e. e.0) d
