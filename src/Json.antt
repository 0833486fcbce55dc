-- ===== src/Json.antt =====
-- The Python values that `json.loads` and YAML give.
--
-- A number is kept as its `repr`. An array and an object have list types of their own, with functions to and
-- from `List`; an object's keys are distinct, since Python keeps the last value of a repeated key.
use diff_graph.Base.{
  Bool, List, Option, String, [], false, none, not, some, str_eq, true, ◌||◌, ◌∷◌,
}

mutual
  pub data Json : Type 0 where
    null : Json
    boolean : Bool → Json
    number : String → Json
    str : String → Json
    array : Elems → Json
    object : Props → Json

  pub data Elems : Type 0 where
    nil : Elems
    cons : Json → Elems → Elems

  pub data Props : Type 0 where
    end : Props
    prop : String → Json → Props → Props

abbrev pub Dict : Type 0
Dict = List (String × Json)

abbrev pub elems : Elems → List Json
elems nil = []
elems (cons v vs) = v ∷ elems vs

abbrev pub props : Props → Dict
props end = []
props (prop k v ps) = (k, v) ∷ props ps

abbrev pub to_props : Dict → Props
to_props [] = end
to_props ((k, v) ∷ d) = prop k v (to_props d)

abbrev pub dict : Dict → Json
dict d = object (to_props d)

-- `isinstance(v, dict)`, with the dictionary.
abbrev pub as_dict : Json → Option Dict
as_dict null = none
as_dict (boolean b) = none
as_dict (number r) = none
as_dict (str s) = none
as_dict (array vs) = none
as_dict (object ps) = some (props ps)

-- `isinstance(v, str)`, with the text.
abbrev pub as_str : Json → Option String
as_str null = none
as_str (boolean b) = none
as_str (number r) = none
as_str (str s) = some s
as_str (array vs) = none
as_str (object ps) = none

-- `v is None`.
abbrev pub is_null : Json → Bool
is_null null = true
is_null (boolean b) = false
is_null (number r) = false
is_null (str s) = false
is_null (array vs) = false
is_null (object ps) = false

-- `bool(v)`.
abbrev pub is_truthy : Json → Bool
is_truthy null = false
is_truthy (boolean b) = b
is_truthy (number r) = not (str_eq r "0" || str_eq r "0.0" || str_eq r "-0.0")
is_truthy (str String.[]) = false
is_truthy (str (String.◌∷◌ c s)) = true
is_truthy (array nil) = false
is_truthy (array (cons v vs)) = true
is_truthy (object end) = false
is_truthy (object (prop k v ps)) = true

-- The texts in a list, such as a schema's `required`.
abbrev pub texts : List Json → List String
texts [] = []
texts (v ∷ vs) = elim (as_str v) [ none ↦ texts vs | some s ↦ s ∷ texts vs ]

-- `v or []` for a list, with its elements.
abbrev pub as_list : Json → List Json
as_list null = []
as_list (boolean b) = []
as_list (number r) = []
as_list (str s) = []
as_list (array vs) = elems vs
as_list (object ps) = []
