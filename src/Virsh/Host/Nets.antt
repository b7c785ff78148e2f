-- ===== src/Virsh/Host/Nets.antt =====
-- Networks of one name are on one bridge, within all the machines of a job.
use rally_ci.Prelude.{
  String, ◌≡◌, refl, Option, none, some, List, [], ◌∷◌, map, arith, eq_iff, eq_refl,
}
use rally_ci.Prelude.Dict.{Dict, lookup, lookup-insert}
use rally_ci.Python.{ok, ok-injective}
use rally_ci.Python.Exec.Inversion.{bind-eq-ok}
use rally_ci.Python.Text.{join, split}
use rally_ci.Virsh.Remote.{Reply, Host}
use rally_ci.Virsh.Bridge.{get_bridge}
use rally_ci.Virsh.Host.{
  Named, dynamic, name_in, renamed, bridge_for, name_parts, name_net, name_nets,
}

abbrev on_bridge : Option String → List String → String
on_bridge none parts = join " " parts
on_bridge (some br) parts = join " " (renamed br parts)

abbrev resolve_parts : Dict String → List String → Option String → String
resolve_parts ifs parts none = join " " parts
resolve_parts ifs parts (some prefix) = on_bridge (lookup (name_in parts) ifs) parts

-- The entry of a network, with the bridge that `ifs` has for its name if that ends in "%".
unfoldable pub resolve : Dict String → String → String
unfolding split
resolve ifs net = let parts = split b' ' net in resolve_parts ifs parts (dynamic (name_in parts))

-- `later` has what `ifs` has.
abbrev pub Extends : Dict String → Dict String → Type 0
Extends ifs later = (k v : String) → lookup k ifs ≡ some v → lookup k later ≡ some v

module _ (answer : List String → String → Reply) where
  -- What is known of an entry that was named: its bridge stays in `ifs`.
  abbrev NamedBy : Dict String → List String → Option String → Named → Type 0
  NamedBy ifs parts dyn n =
      Extends ifs n.ifs
      × ((later : Dict String) → Extends n.ifs later → n.net ≡ resolve_parts later parts dyn)

  bridge_for-eq-ok :
      (found : Option String) (prefix name : String) (ifs : Dict String) (h : Host)
      (made : String × Dict String)
      → lookup name ifs ≡ found
      → (bridge_for answer found prefix name ifs h).0 ≡ ok made
      → Extends ifs made.1 × (lookup name made.1 ≡ some made.0)
  bridge_for-eq-ok (some br) prefix name ifs h made f e =
      rw (← ok-injective e) (λ k v known. known, f)
  bridge_for-eq-ok none prefix name ifs h made f e =
      let (br, e₁, e₂) = bind-eq-ok (get_bridge answer prefix) _ h e in
      rw (← ok-injective e₂) (
        λ k v known. ground (arith, lookup-insert name k br ifs, eq_iff name k, f, known),
        ground (arith, lookup-insert name name br ifs, eq_refl name),
      )

  name_parts-NamedBy :
      (dyn : Option String) (ifs : Dict String) (br : Option String) (parts : List String)
      (h : Host) (n : Named)
      → (name_parts answer dyn ifs br parts h).0 ≡ ok n
      → NamedBy ifs parts dyn n
  name_parts-NamedBy none ifs br parts h n e =
      rw (← ok-injective e) (λ k v known. known, λ later ext. refl)
  name_parts-NamedBy (some prefix) ifs br parts h n e =
      let name = name_in parts in
      let (made, e₁, e₂) = bind-eq-ok (bridge_for answer (lookup name ifs) prefix name ifs) _ h e in
      let (ext, known) = bridge_for-eq-ok (lookup name ifs) prefix name ifs h made refl e₁ in
      rw (← ok-injective e₂) (ext, λ later further. rw (further name made.0 known) refl)

  -- If the networks of a machine get their names, then each has the bridge that the final `ifs` holds
  -- for it, so that equal names with "%" get equal bridges; and `ifs` still holds all that it held, so
  -- that this stays true for the machines that come later.
  pub name_nets-resolve :
      (ifs : Dict String) (br : Option String) (nets : List String) (h : Host)
      (named : Dict String × Option String × List String)
      → (name_nets answer ifs br nets h).0 ≡ ok named
      → Extends ifs named.0
        × ((later : Dict String) → Extends named.0 later → named.2 ≡ map (resolve later) nets)
  unfolding name_nets name_net resolve
  name_nets-resolve ifs br [] h named e =
      rw (← ok-injective e) (λ k v known. known, λ later ext. refl)
  name_nets-resolve ifs br (net ∷ nets) h named e =
      let (n, e₁, e₂) = bind-eq-ok (name_net answer ifs br net) _ h e in
      let (rest, e₃, e₄) =
        bind-eq-ok (name_nets answer n.ifs n.br nets) _ (name_net answer ifs br net h).1 e₂ in
      let (ext, by) = name_parts-NamedBy (dynamic (name_in (split b' ' net))) ifs br _ h n e₁ in
      let (ext', by') = name_nets-resolve n.ifs n.br nets _ rest e₃ in
      rw (← ok-injective e₄) (
        λ k v known. ext' k v (ext k v known),
        λ later further.
            rw (by later (λ k v known. further k v (ext' k v known)), by' later further) refl,
      )
