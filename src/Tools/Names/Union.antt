-- ===== src/Tools/Names/Union.antt =====
-- Which names the tools of a run are.
use diff_graph.Base.{
  Bool, Bool-cases, List, Option, String, [], any, any-append, ap, arith, eq_iff, inl, inr, is_some,
  keep_if, leb, none, not, refl, some, str_eq, sym, true, ℕ, ◌&&◌, ◌++◌, ◌||◌, ◌∙◌, ◌∷◌, ◌≡◌,
}
use diff_graph.Tools.{ToolRegistry, has}
use diff_graph.Tools.Meta.{is_member}
use diff_graph.Tools.Names.{
  Frontmatter, append_new, is_hidden, is_unknown, joined_names, native_names, registered,
  shown_names,
}

is_member-keep_if :
    (p : String → Bool) (n : String) (names : List String)
    → is_member n (keep_if p names) ≡ (is_member n names && p n)
is_member-keep_if p n [] = refl
is_member-keep_if p n (m ∷ names) = elim (Bool-cases (str_eq n m)) [
  | inl e ↦
      let same : p m ≡ p n = ap p (sym ((eq_iff n m).0 e)) in
      ground (arith, e, same, is_member-keep_if p n names)
  | inr e ↦ ground (arith, e, is_member-keep_if p n names)
]

is_member-append_new :
    (n : String) (names more : List String)
    → is_member n (append_new names more) ≡ (is_member n names || is_member n more)
unfolding append_new
is_member-append_new n names [] = ground arith
is_member-append_new n names (m ∷ more) = elim (Bool-cases (is_member m names)) [
  | inl e ↦ elim (Bool-cases (str_eq n m)) [
    | inl same ↦
        let listed : is_member n names ≡ true =
          ap (λ i. is_member i names) ((eq_iff n m).0 same) ∙ e in
        rw e (ground (arith, same, listed, is_member-append_new n names more))
    | inr other ↦ rw e (ground (arith, other, is_member-append_new n names more))
  ]
  | inr e ↦
      let joined = any-append (str_eq n) names (m ∷ []) in
      rw e (ground (arith, joined, is_member-append_new n (names ++ m ∷ []) more))
]

abbrev pub names_or_none : Option (List String) → List String
names_or_none none = []
names_or_none (some names) = names

abbrev pub or_no_names : Option (List String) → List String
or_no_names none = []
or_no_names (some wanted) = wanted

module _ (S : Type 0) (registry : ToolRegistry S) where
  -- A name in the pool is registered.
  unknown_lem :
      (tools extra : List String) (n : String)
      → is_unknown S registry (registered S registry tools ++ registered S registry extra) n
        ≡ not (has S registry n)
  unknown_lem tools extra n =
      let both =
        any-append (str_eq n) (registered S registry tools) (registered S registry extra) in
      let a = is_member-keep_if (has S registry) n tools in
      let b = is_member-keep_if (has S registry) n extra in ground (arith, both, a, b)

  any_unknown :
      (tools extra wanted : List String)
      → any
          (is_unknown S registry (registered S registry tools ++ registered S registry extra))
          wanted
        ≡ any (λ n. not (has S registry n)) wanted
  any_unknown tools extra [] = refl
  any_unknown tools extra (n ∷ wanted) =
      let here = unknown_lem tools extra n in
      let rest = any_unknown tools extra wanted in rw (here, rest) refl

  shown_names_lem :
      (depth max_depth : ℕ) (n : String) (names : List String)
      → is_member n (names_or_none (shown_names S registry depth max_depth (some names)))
        ≡ (is_member n names && not (is_hidden depth max_depth n))
  shown_names_lem depth max_depth n names =
      let kept = is_member-keep_if (λ i. not (str_eq i "agent_spawn")) n names in
      elim (Bool-cases (leb max_depth depth)) [
        | inl e ↦ rw e (ground (arith, kept))
        | inr e ↦ rw e (ground arith)
      ]

  -- The names where the front matter lists `wanted`.
  abbrev names_with :
      List String
      → List String
      → (depth max_depth : ℕ) → Option (List String)
      → Option (List String)
  names_with tools extra depth max_depth wanted = shown_names S registry depth max_depth (
      joined_names S registry (registered S registry tools)
        (registered S registry tools ++ registered S registry extra) wanted)

  abbrev IsOffered :
      List String → (depth max_depth : ℕ) → List String → String → Option (List String) → Type 0
  IsOffered tools depth max_depth wanted n names =
      (is_some names ≡ not (any (λ i. not (has S registry i)) wanted))
      × (is_some names ≡ true
          → is_member n (names_or_none names) ≡ (
              ((is_member n tools && has S registry n) || is_member n wanted)
              && not (is_hidden depth max_depth n)))

  names_with-IsOffered :
      (tools extra : List String) (depth max_depth : ℕ) (n : String) (o : Option (List String))
      → IsOffered tools depth max_depth (or_no_names o) n (names_with tools extra depth max_depth o)
  names_with-IsOffered tools extra depth max_depth n none =
      let shown = shown_names_lem depth max_depth n (registered S registry tools) in
      let a = is_member-keep_if (has S registry) n tools in (refl, λ _. shown ∙ rw a (ground arith))
  names_with-IsOffered tools extra depth max_depth n (some wanted) =
      let known = any_unknown tools extra wanted in
      elim (Bool-cases (any (λ i. not (has S registry i)) wanted)) [
        | inl e ↦ rw (known, e) (refl, λ h. cc)
        | inr e ↦
            let shown =
              shown_names_lem depth max_depth n (append_new (registered S registry tools) wanted) in
            let a = is_member-keep_if (has S registry) n tools in
            let b = is_member-append_new n (registered S registry tools) wanted in
            rw (known, e) (refl, λ _. shown ∙ rw (b, a) refl)
      ]

  -- A run has its tools exactly if each tool that the front matter lists is registered. They are the registered tools of
  -- the configuration and the tools that the front matter lists, but for `agent_spawn` at the greatest depth.
  pub native_names_lem :
      (tools : List String) (fm : Frontmatter) (depth max_depth : ℕ) (n : String)
      → let names = native_names S registry tools fm depth max_depth in
        let wanted = or_no_names fm.tools in
        (is_some names ≡ not (any (λ i. not (has S registry i)) wanted))
        × (is_some names ≡ true
            → is_member n (names_or_none names) ≡ (
                ((is_member n tools && has S registry n) || is_member n wanted)
                && not (is_hidden depth max_depth n)))
  unfolding native_names
  native_names_lem tools fm depth max_depth n =
      names_with-IsOffered tools fm.extra_tools depth max_depth n fm.tools
