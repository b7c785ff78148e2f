-- ===== src/Config/Modules/Once.antt =====
-- The cache of modules, and how often a module is imported.
use rally_ci.Prelude.{
  ℕ, ◌+◌, String, ◌≡◌, none, some, List, [], ◌∷◌, ◌++◌, ◌==◌, if◌then◌else◌, arith, eq_iff,
  Option-cases, inl, inr,
}
use rally_ci.Prelude.Dict.{Dict, lookup, insert, lookup-insert}
use rally_ci.Python.{Exception, Result, ok, err, Result-cases}
use rally_ci.Python.Exec.Keeps.{Keeps-bind, Keeps-bind-lift}
use rally_ci.Python.Value.{Value, index}
use rally_ci.Config.Load.{Name, Section}
use rally_ci.Config.Modules.{
  Cache, get_module, module_of, module_name, instances_from, values_of, iter_instances,
}

abbrev pub count : String → List String → ℕ
count k [] = 0
count k (j ∷ l) = (if j == k then 1 else 0) + count k l

count-append : (k : String) (l m : List String) → count k (l ++ m) ≡ count k l + count k m
count-append k [] m = omega arith
count-append k (j ∷ l) m = omega (arith, count-append k l m)

abbrev pub failed {ℓ} : {A : Type ℓ} → Result A → ℕ
failed (ok _) = 0
failed (err _) = 1

module _ {Module : Type 0} (import_module : String → Result Module) where
  -- A module in the cache was imported once and is what the import returned; one that is not there
  -- was never imported.
  pub record IsFaithful (c : Cache Module) : Type 0 where
    pub held : (k : String) (m : Module) → lookup k c.modules ≡ some m → import_module k ≡ ok m
    pub once : (k : String) (m : Module) → lookup k c.modules ≡ some m → count k c.imports ≡ 1
    pub never :
        (k : String)
        → lookup k c.modules ≡ none
        → (m : Module) → import_module k ≡ ok m
        → count k c.imports ≡ 0

  module _ (name : String) (c : Cache Module) (f : IsFaithful c)
      (new : lookup name c.modules ≡ none) where
    failed-IsFaithful :
        (e : Exception)
        → import_module name ≡ err e
        → IsFaithful (record c { imports = c.imports ++ name ∷ [] })
    failed-IsFaithful e raised = record {
      held = f.held;
      once = λ k m h.
          ground (arith, count-append k c.imports (name ∷ []), eq_iff name k, f.once k m h, new);
      never = λ k h m i.
          ground
            (arith, count-append k c.imports (name ∷ []), eq_iff name k, f.never k h m i, raised);
    }

    loaded-IsFaithful :
        (x : Module)
        → import_module name ≡ ok x
        → IsFaithful
            (record { modules = insert name x c.modules; imports = c.imports ++ name ∷ [] })
    loaded-IsFaithful x found = record {
      held = λ k m. ground (arith, eq_iff name k, lookup-insert name k x c.modules, f.held k m);
      once = λ k m. ground (
        arith,
        count-append k c.imports (name ∷ []),
        eq_iff name k,
        lookup-insert name k x c.modules,
        f.once k m,
        f.never name new x found,
      );
      never = λ k h m. ground (
        arith,
        count-append k c.imports (name ∷ []),
        eq_iff name k,
        lookup-insert name k x c.modules,
        f.never k _ m,
      );
    }

  get_module-IsFaithful :
      (name : String) (c : Cache Module)
      → IsFaithful c
      → IsFaithful (get_module import_module name c).1
  unfolding get_module
  get_module-IsFaithful name c f = elim (Option-cases (lookup name c.modules)) [
    | inr (m, e) ↦ rw e f
    | inl new ↦ elim (Result-cases (import_module name)) [
      | inl (x, found) ↦ rw (new, found) (loaded-IsFaithful name c f new x found)
      | inr (e, raised) ↦ rw (new, raised) (failed-IsFaithful name c f new e raised)
    ]
  ]

  module_of-IsFaithful :
      (cfg : Value) (c : Cache Module) → IsFaithful c → IsFaithful (module_of import_module cfg c).1
  unfolding module_of
  module_of-IsFaithful cfg =
      Keeps-bind-lift IsFaithful (index cfg "module") _
        (λ raw. Keeps-bind-lift IsFaithful (module_name raw) _ get_module-IsFaithful)

  instances_from-IsFaithful :
      (d : List (Name × Value)) (c : Cache Module)
      → IsFaithful c
      → IsFaithful (instances_from import_module d c).1
  unfolding instances_from
  instances_from-IsFaithful [] c f = f
  instances_from-IsFaithful ((_, cfg) ∷ rest) c f =
      Keeps-bind IsFaithful (module_of import_module cfg) _ (module_of-IsFaithful cfg)
        (λ m.
          Keeps-bind IsFaithful (instances_from import_module rest) _
            (instances_from-IsFaithful rest) (λ built s h. h))
        c f

  -- Building the objects of a section keeps the cache faithful, also when an import or an entry
  -- raises: a cached module is what its one import returned, and a module that can be imported and
  -- is not cached was never imported.
  pub iter_instances-IsFaithful :
      (sections : Dict Section) (section : String) (c : Cache Module)
      → IsFaithful c
      → IsFaithful (iter_instances import_module sections section c).1
  unfolding iter_instances
  iter_instances-IsFaithful sections section =
      Keeps-bind-lift IsFaithful (values_of (lookup section sections)) _ instances_from-IsFaithful
