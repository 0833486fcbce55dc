-- ===== src/Tools/Schema/WellFormed.antt =====
-- The required names of a schema are names of its properties.
use diff_graph.Base.{
  All, All-append, All_map, Bool, Bool-cases, List, Option, String, [], ap, arith, eq_iff, false,
  if◌then◌else◌, inl, inr, none, not, refl, some, subst, sym, true, ◌&&◌, ◌++◌, ◌||◌, ◌∙◌, ◌∷◌, ◌≡◌,
}
use diff_graph.Dict.{get?, has_key, set_key}
use diff_graph.Dict.Laws.{has-set_key}
use diff_graph.Json.{Dict, Json, as_dict, dict, elems, str, texts}
use diff_graph.Tools.Repair.{required_of}
use diff_graph.Tools.Schema.{
  Fields, Parameter, add_field, allows_none, infer_fields, infer_parameter, infer_schema, is_given,
  is_self, json_type, no_fields, schema_of, to_elems, yaml_fields, yaml_parameter, yaml_property,
}
use mathlib.Core.List.{append-nil, append_assoc}

abbrev pub IsClosed : Fields → Type 0
IsClosed fields = All (λ k. has_key k fields.properties ≡ true) fields.required

wider :
    (name : String) (v : Json) (properties : Dict) (k : String)
    → has_key k properties ≡ true
    → has_key k (set_key name v properties) ≡ true
wider name v properties k h = ground (arith, has-set_key name k v properties)

own_key :
    (name : String) (v : Json) (properties : Dict) → has_key name (set_key name v properties) ≡ true
own_key name v properties = ground (arith, has-set_key name name v properties, eq_iff name name)

add_field-IsClosed :
    (name : String) (property : Dict) (is_required : Bool) (fields : Fields)
    → IsClosed fields
    → IsClosed (add_field name property is_required fields)
add_field-IsClosed name property true fields h =
    All-append (λ k. has_key k (set_key name (dict property) fields.properties) ≡ true)
      fields.required (name ∷ [])
      (All_map fields.required (wider name (dict property) fields.properties) h)
      (own_key name (dict property) fields.properties, tt)
add_field-IsClosed name property false fields h =
    All_map fields.required (wider name (dict property) fields.properties) h

infer_parameter-IsClosed :
    (p : Parameter) (fields : Fields) → IsClosed fields → IsClosed (infer_parameter p fields)
infer_parameter-IsClosed p fields h = elim (Bool-cases (is_self p.name)) [
  | inl e ↦ rw e h
  | inr e ↦ rw e (
      add_field-IsClosed p.name (("type", str (json_type p.hint)) ∷ [])
        (not (allows_none p.hint || p.has_default)) fields h)
]

infer_fields-IsClosed :
    (ps : List Parameter) (fields : Fields) → IsClosed fields → IsClosed (infer_fields ps fields)
infer_fields-IsClosed [] fields h = h
infer_fields-IsClosed (p ∷ ps) fields h =
    infer_fields-IsClosed ps (infer_parameter p fields) (infer_parameter-IsClosed p fields h)

yaml_parameter-IsClosed :
    (name : String) (pconf : Option Dict) (fields : Fields)
    → IsClosed fields
    → IsClosed (yaml_parameter name pconf fields)
yaml_parameter-IsClosed name none fields h =
    add_field-IsClosed name (("type", str "string") ∷ []) false fields h
yaml_parameter-IsClosed name (some pconf) fields h =
    add_field-IsClosed name (yaml_property pconf) (is_given "required" pconf) fields h

yaml_fields-IsClosed :
    (params : Dict) (fields : Fields) → IsClosed fields → IsClosed (yaml_fields params fields)
yaml_fields-IsClosed [] fields h = h
yaml_fields-IsClosed ((name, v) ∷ params) fields h =
    yaml_fields-IsClosed params (yaml_parameter name (as_dict v) fields)
      (yaml_parameter-IsClosed name (as_dict v) fields h)

pub infer-IsClosed : (ps : List Parameter) → IsClosed (infer_fields ps no_fields)
infer-IsClosed ps = infer_fields-IsClosed ps no_fields tt

pub yaml-IsClosed : (params : Dict) → IsClosed (yaml_fields params no_fields)
yaml-IsClosed params = yaml_fields-IsClosed params no_fields tt

texts-to_elems : (names : List String) → texts (elems (to_elems names)) ≡ names
texts-to_elems [] = refl
texts-to_elems (k ∷ names) = ap (λ rest. k ∷ rest) (texts-to_elems names)

required_entry_of :
    (fields : Fields) (names : List String)
    → fields.required ≡ names
    → required_of (schema_of fields) ≡ names
unfolding get?
required_entry_of fields [] e = rw e refl
required_entry_of fields (k ∷ names) e = rw e (texts-to_elems (k ∷ names))

pub required_of-schema_of : (fields : Fields) → required_of (schema_of fields) ≡ fields.required
required_of-schema_of fields = required_entry_of fields fields.required refl

-- The parameters that a call has to give.
abbrev pub is_required : Parameter → Bool
is_required p = not (is_self p.name) && not (allows_none p.hint || p.has_default)

abbrev pub required_names : List Parameter → List String
required_names [] = []
required_names (p ∷ ps) = if is_required p then p.name ∷ required_names ps else required_names ps

abbrev one_if : Bool → String → List String
one_if b name = if b then name ∷ [] else []

one_if-append :
    (b : Bool) (name : String) (names : List String)
    → one_if b name ++ names ≡ (if b then name ∷ names else names)
one_if-append true name names = refl
one_if-append false name names = refl

step_required :
    (own optional : Bool) (name : String) (property : Dict) (fields : Fields)
    → (if own then fields else add_field name property (not optional) fields).required
      ≡ fields.required ++ one_if (not own && not optional) name
step_required true optional name property fields = sym (append-nil fields.required)
step_required false true name property fields = sym (append-nil fields.required)
step_required false false name property fields = refl

infer_fields_required :
    (ps : List Parameter) (fields : Fields)
    → (infer_fields ps fields).required ≡ fields.required ++ required_names ps
infer_fields_required [] fields = sym (append-nil fields.required)
infer_fields_required (p ∷ ps) fields =
    infer_fields_required ps (infer_parameter p fields)
    ∙ ap (λ l. l ++ required_names ps)
        (step_required (is_self p.name) (allows_none p.hint || p.has_default) p.name
          (("type", str (json_type p.hint)) ∷ []) fields)
    ∙ append_assoc fields.required (one_if (is_required p) p.name) (required_names ps)
    ∙ ap (λ l. fields.required ++ l) (one_if-append (is_required p) p.name (required_names ps))

-- The inferred schema asks for exactly the parameters that are neither `self` or `cls`, nor optional, nor have a
-- default, in their order, and each of them is among its properties.
pub infer_schema_lem :
    (ps : List Parameter)
    → (required_of (infer_schema ps) ≡ required_names ps)
      × All (λ k. has_key k (infer_fields ps no_fields).properties ≡ true) (required_names ps)
unfolding infer_schema
infer_schema_lem ps =
    let names = infer_fields_required ps no_fields in
    (
      required_of-schema_of (infer_fields ps no_fields) ∙ names,
      subst (λ l. All (λ k. has_key k (infer_fields ps no_fields).properties ≡ true) l) names
          (infer-IsClosed ps),
    )
