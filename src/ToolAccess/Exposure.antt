-- ===== src/ToolAccess/Exposure.antt =====
-- The tools that an agent is told of, compared with those that it may call.
use moomacha.Base.{
  String, ◌≡◌, refl, ap, subst, ◌∙◌, inl, inr, Bool, true, false, not, ◌&&◌, ◌||◌, none, some, List,
  [], ◌∷◌, ◌++◌, map, arith, str_eq, eq_iff, if◌then◌else◌, Bool-cases, Option-cases,
}
use moomacha.Agents.{ResolvedAgent}
use moomacha.ToolAccess.{
  register, lookup, permitted_by_flags, contains, unprivileged, implied, with_management, with_exec,
  resolve_names, describe, describe_tools, schemas_for, build_schemas, ToolEntry,
}
use moomacha.ToolAccess.Permission.{is_permitted}

pub contains-append :
    (x : String) (xs ys : List String) → contains x (xs ++ ys) ≡ (contains x xs || contains x ys)
unfolding contains
contains-append x [] ys = refl
contains-append x (y ∷ xs) ys = ground (arith, contains-append x xs ys)

module _ {Parsed World : Type 0} where
  -- A Python dict has a key once.
  abbrev pub IsDict : List (String × ToolEntry Parsed World) → Type 0
  IsDict [] = Unit
  IsDict ((n, e) ∷ tools) = (lookup n tools ≡ none) × IsDict tools

  pub lookup-register :
      (name k : String) (entry : ToolEntry Parsed World)
      (tools : List (String × ToolEntry Parsed World))
      → lookup k (register name entry tools)
        ≡ (if str_eq k name then some entry else lookup k tools)
  unfolding lookup register
  lookup-register name k entry [] = ground (arith, eq_iff name k, eq_iff k name)
  lookup-register name k entry ((n, e) ∷ tools) = ground (
    arith,
    eq_iff n name,
    eq_iff k name,
    eq_iff name k,
    eq_iff n k,
    lookup-register name k entry tools,
  )

  pub register-IsDict :
      (name : String) (entry : ToolEntry Parsed World)
      (tools : List (String × ToolEntry Parsed World))
      → IsDict tools
      → IsDict (register name entry tools)
  unfolding register lookup
  register-IsDict name entry [] d = (refl, tt)
  register-IsDict name entry ((n, e) ∷ tools) d =
      ground (arith, register-IsDict name entry tools d.1, lookup-register name n entry tools)

  contains-implied-none :
      (flag : ToolEntry Parsed World → Bool) (x : String) (names : List String)
      (tools : List (String × ToolEntry Parsed World))
      → lookup x tools ≡ none
      → contains x (implied flag names tools) ≡ false
  unfolding implied contains lookup
  contains-implied-none flag x names [] e = refl
  contains-implied-none flag x names ((n, f) ∷ tools) e =
      ground (arith, contains-implied-none flag x names tools)

  contains-implied :
      (flag : ToolEntry Parsed World → Bool) (x : String) (names : List String)
      (tools : List (String × ToolEntry Parsed World)) (entry : ToolEntry Parsed World)
      → IsDict tools
      → lookup x tools ≡ some entry
      → contains x (implied flag names tools) ≡ (flag entry && not (contains x names))
  unfolding implied contains lookup
  contains-implied flag x names [] entry d e = absurd (ground arith)
  contains-implied flag x names ((n, f) ∷ tools) entry d e = elim (Bool-cases (str_eq n x)) [
    | inl here ↦
        let same = (eq_iff n x).0 here in
        let gone =
          contains-implied-none flag x names tools (subst (λ y. lookup y tools ≡ none) same d.0) in
        let listed = ap (λ y. contains y names) same in ground (arith)
    | inr there ↦ ground (arith, contains-implied flag x names tools entry d.1)
  ]

module _ {Parsed World : Type 0} (tools : List (String × ToolEntry Parsed World)) where
  contains-unprivileged :
      (b c : Bool) (x : String) (allowed : List String) (entry : ToolEntry Parsed World)
      → lookup x tools ≡ some entry
      → contains x (unprivileged tools b c allowed)
        ≡ (permitted_by_flags b c entry && contains x allowed)
  unfolding unprivileged contains
  contains-unprivileged b c x [] entry e = ground arith
  contains-unprivileged b c x (n ∷ allowed) entry e = elim (Bool-cases (str_eq n x)) [
    | inl here ↦
        let found : lookup n tools ≡ some entry =
          ap (λ y. lookup y tools) ((eq_iff n x).0 here) ∙ e in
        ground (arith, contains-unprivileged b c x allowed entry e)
    | inr there ↦ elim (Option-cases (lookup n tools)) [
      | inl gone ↦ ground (arith, contains-unprivileged b c x allowed entry e)
      | inr (f, found) ↦ ground (arith, contains-unprivileged b c x allowed entry e)
    ]
  ]

  module _ (x : String) (entry : ToolEntry Parsed World) (d : IsDict tools)
      (e : lookup x tools ≡ some entry) where
    contains-with_management :
        (b : Bool) (names : List String)
        → contains x (with_management tools b names) ≡ (contains x names || (b && entry.management))
    unfolding with_management
    contains-with_management true names = ground (
      arith,
      contains-append x names (implied (λ t. t.management) names tools),
      contains-implied (λ t. t.management) x names tools entry d e,
    )
    contains-with_management false names = ground arith

    contains-with_exec :
        (c : Bool) (names : List String)
        → contains x (with_exec tools c names) ≡ (contains x names || (c && entry.requires_exec))
    unfolding with_exec
    contains-with_exec true names = ground (
      arith,
      contains-append x names (implied (λ t. t.requires_exec) names tools),
      contains-implied (λ t. t.requires_exec) x names tools entry d e,
    )
    contains-with_exec false names = ground arith

    -- What decides whether a registered tool is among an agent's tools.
    pub contains-resolve_names :
        (allowed : List String) (b c : Bool)
        → contains x (resolve_names tools allowed b c) ≡ (
            permitted_by_flags b c entry && contains x allowed
            || (b && entry.management || c && entry.requires_exec))
    unfolding resolve_names
    contains-resolve_names allowed b c =
        let names = unprivileged tools b c allowed in
        ground (
          arith,
          contains-with_exec c (with_management tools b names),
          contains-with_management b names,
          contains-unprivileged b c x allowed entry e,
        )

    -- In a registry with each name once, for a registered tool that is not both a management and an
    -- exec tool: it is among the names offered to an agent exactly if the chokepoint permits it.
    pub exposed-eq-permitted :
        (agent : ResolvedAgent)
        → (entry.management && entry.requires_exec) ≡ false
        → contains x (resolve_names tools agent.allowed_tools agent.is_bastion agent.can_exec)
          ≡ is_permitted x agent entry
    unfolding is_permitted permitted_by_flags
    exposed-eq-permitted agent single =
        ground (arith, contains-resolve_names agent.allowed_tools agent.is_bastion agent.can_exec)

  describe-schemas :
      (names : List String)
      → map (λ (p : String × String). p.0) (describe tools names)
        ≡ map (λ (p : String × String × String). p.0) (schemas_for tools names)
  unfolding describe schemas_for
  describe-schemas [] = refl
  describe-schemas (n ∷ names) = elim (Option-cases (lookup n tools)) [
    | inl e ↦ ground (arith, describe-schemas names)
    | inr (f, e) ↦ ground (arith, describe-schemas names)
  ]

  -- The tools listed in the prompt are the tools bound to the model, in the same order.
  pub describe_tools-build_schemas :
      (allowed : List String) (b c : Bool)
      → map (λ (p : String × String). p.0) (describe_tools tools allowed b c)
        ≡ map (λ (p : String × String × String). p.0) (build_schemas tools allowed b c)
  unfolding describe_tools build_schemas
  describe_tools-build_schemas allowed b c = describe-schemas (resolve_names tools allowed b c)
