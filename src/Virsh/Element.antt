-- ===== src/Virsh/Element.antt =====
-- The class `XMLElement` of rallyci/providers/virsh.py. The code adds sub-elements to elements that it holds;
-- here an element is written with its sub-elements, in the order in which the code adds them.
use rally_ci.Prelude.{String, List, [], ◌∷◌}
use rally_ci.Prelude.Dict.{Dict}

mutual
  -- A tag, attributes, a text and sub-elements
  pub data Element : Type 0 where
    element : String → Dict String → String → Elements → Element

  pub data Elements : Type 0 where
    cons : Element → Elements → Elements
    nil : Elements

unfoldable pub elements : List Element → Elements
elements [] = nil
elements (x ∷ xs) = cons x (elements xs)

-- `x.se(tag, **attributes)` with its sub-elements, and one that has a text
abbrev pub se : String → Dict String → List Element → Element
se tag attributes xs = element tag attributes "" (elements xs)

abbrev pub se_text : String → Dict String → String → Element
se_text tag attributes text = element tag attributes text nil
