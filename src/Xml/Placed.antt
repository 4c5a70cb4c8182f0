-- ===== src/Xml/Placed.antt =====
-- Where the addresses of a tree point.
use http.Base.{
  drop-add, ℕ, ◌+◌, ◌≤◌, ◌<◌, ◌≡◌, refl, ◌⊎◌, inl, inr, true, false, Option, none, some, [], ◌∷◌,
  Bytes, drop, find, starts, equal, length, length-drop, null, arith, Bool-cases, Option-cases,
}
use http.Strings.Search.{find-Found, find-nil, starts-length}
use http.Xml.{find_from}
use http.Xml.Tree.{
  DomElement, DomNodes, element, no_node, element_node, text_node, other_node, XmlNode, XmlChildren,
  node, no_child, child, find_child, child_or_new, set_child, has_element_children,
  get_element_text, place_text, placed, populate_tree, populate_children, tag_name,
}

pub find-starts : (s d : Bytes) (p : ℕ) → find s d ≡ some p → starts d (drop p s) ≡ true
find-starts [] d p h = let (e, e') = find-nil d p h in rw (e, e') (unfold starts in refl)
find-starts (c ∷ s) d p h = elim (find-Found c s d p h) [
  | inl (e, st) ↦ rw e st
  | inr (q, e, _, f) ↦ rw e (find-starts s d q f)
]

-- Where a text was found from a position on, it stands.
find_from-stands :
    (s d : Bytes) (pos p : ℕ) → find_from s d pos ≡ some p → starts d (drop p s) ≡ true
unfolding find_from
find_from-stands s d pos p h = after (find (drop pos s) d) refl h
  where
    after :
        (o : Option ℕ)
        → find (drop pos s) d ≡ o
        → ◌≡◌ {A = Option ℕ} (elim o [ none ↦ none | some q ↦ some (pos + q) ]) (some p)
        → starts d (drop p s) ≡ true
    after none n e = absurd (cc e)
    after (some q) found e =
        let at : pos + q ≡ p = ground (arith, e) in
        rw (← at, drop-add pos q s) (find-starts (drop pos s) d q found)

-- `address` points into the message at a text with the property `S`, of that length; or the node
-- has no address.
abbrev pub IsPlaced : (Bytes → Type 0) → ℕ → Bytes → ℕ → ℕ → Type 0
IsPlaced S data_address raw address size =
    ((address ≡ 0) × (size ≡ 0))
    ⊎ ((found : ℕ) × (value : Bytes) × (address ≡ data_address + found)
        × (size ≡ length value)
        × (0 < size)
        × (found + size ≤ length raw)
        × (starts value (drop found raw) ≡ true)
        × S value)

unfoldable mutual
  pub AllNodes : (ℕ → ℕ → Type 0) → XmlNode → Type 0
  AllNodes P (node cs address size) = P address size × AllChildren P cs

  pub AllChildren : (ℕ → ℕ → Type 0) → XmlChildren → Type 0
  AllChildren P no_child = Unit
  AllChildren P (child name n cs) = AllNodes P n × AllChildren P cs

-- The texts of the elements without element children have the property.
unfoldable mutual
  pub AllTexts : (Bytes → Type 0) → DomElement → Type 0
  AllTexts S (element name nodes) =
      (has_element_children nodes ≡ false → S (get_element_text nodes)) × AllTextsIn S nodes

  pub AllTextsIn : (Bytes → Type 0) → DomNodes → Type 0
  AllTextsIn S no_node = Unit
  AllTextsIn S (element_node e nodes) = AllTexts S e × AllTextsIn S nodes
  AllTextsIn S (text_node t nodes) = AllTextsIn S nodes
  AllTextsIn S (other_node nodes) = AllTextsIn S nodes

module _ (P : ℕ → ℕ → Type 0) (fresh : P 0 0) where
  pub child_or_new-All :
      (key : Bytes) (cs : XmlChildren) → AllChildren P cs → AllNodes P (child_or_new key cs)
  unfolding child_or_new find_child AllNodes
  child_or_new-All key no_child h = (fresh, tt)
  child_or_new-All key (child name n cs) (hn, hs) = elim (Bool-cases (equal name key)) [
    | inl t ↦ rw (t, child_or_new, find_child) hn
    | inr t ↦ rw (t, child_or_new, find_child) (child_or_new-All key cs hs)
  ]

  pub set_child-All :
      (key : Bytes) (n : XmlNode) (cs : XmlChildren)
      → AllNodes P n
      → AllChildren P cs
      → AllChildren P (set_child key n cs)
  unfolding set_child AllNodes
  set_child-All key n no_child hn hs = (hn, tt)
  set_child-All key n (child name m cs) hn (hm, hs) = elim (Bool-cases (equal name key)) [
    | inl t ↦ rw t (hn, hs)
    | inr t ↦ rw t (hm, set_child-All key n cs hn hs)
  ]

module _ (S : Bytes → Type 0) (data_address : ℕ) (raw : Bytes) where
  abbrev pub Placed : ℕ → ℕ → Type 0
  Placed = IsPlaced S data_address raw

  nothing-Placed : Placed 0 0
  nothing-Placed = inl (refl, refl)

  placed-All :
      (found : ℕ) (value : Bytes) (n : XmlNode)
      → S value
      → null value ≡ false
      → starts value (drop found raw) ≡ true
      → AllNodes Placed n
      → AllNodes Placed (placed data_address raw found value n).0
  unfolding AllNodes
  placed-All found value (node cs address size) h some_text stands (ha, hs) =
      let long : 0 < length value = not_null value some_text in
      (
        inr (
          found,
          value,
          refl,
          refl,
          long,
          omega (arith, long, starts-length value (drop found raw) stands, length-drop found raw),
          stands,
          h,
        ),
        hs,
      )
    where
      not_null : (v : Bytes) → null v ≡ false → 0 < length v
      not_null [] e = cc e
      not_null (c ∷ v) e = omega arith

  place_text-All :
      (value : Bytes) (n : XmlNode) (offset : ℕ)
      → S value
      → AllNodes Placed n
      → AllNodes Placed (place_text data_address raw value n offset).0
  unfolding place_text AllNodes
  place_text-All value n offset h hn = elim (Bool-cases (null value)) [
    | inl t ↦ rw t hn
    | inr t ↦ rw t (elim (Option-cases (find_from raw value offset)) [
      | inr (found, e) ↦
          rw (e, place_text)
            (placed-All found value n h t (find_from-stands raw value offset found e) hn)
      | inl gone ↦
          rw (gone, place_text)
            (elim (Option-cases (find raw value)) [
              | inr (found, e) ↦
                  rw (e, place_text)
                    (placed-All found value n h t (find-starts raw value found e) hn)
              | inl none_at_all ↦ rw (none_at_all, place_text) hn
            ])
    ])
  ]

  mutual
    unfolding populate_tree AllNodes AllTexts

    populate_tree-All :
        (e : DomElement) (n : XmlNode) (offset : ℕ)
        → AllTexts S e
        → AllNodes Placed n
        → AllNodes Placed (populate_tree data_address raw e n offset).0
    populate_tree-All (element name nodes) n offset (h, hs) hn =
        elim (Bool-cases (has_element_children nodes)) [
          | inl t ↦ rw t (populate_children-All nodes n offset hs hn)
          | inr t ↦ rw t (place_text-All (get_element_text nodes) n offset (h t) hn)
        ]

    pub populate_children-All :
        (nodes : DomNodes) (n : XmlNode) (offset : ℕ)
        → AllTextsIn S nodes
        → AllNodes Placed n
        → AllNodes Placed (populate_children data_address raw nodes n offset).0
    populate_children-All no_node n offset h hn = hn
    populate_children-All (text_node t nodes) n offset h hn =
        populate_children-All nodes n offset h hn
    populate_children-All (other_node nodes) n offset h hn =
        populate_children-All nodes n offset h hn
    populate_children-All (element_node e nodes) (node cs address size) offset (he, h) (ha, hs) =
        let inner = child_or_new-All Placed nothing-Placed (tag_name e) cs hs in
        populate_children-All nodes _ _ h (
          ha,
          set_child-All Placed nothing-Placed (tag_name e) _ cs
              (populate_tree-All e _ offset he inner) hs,
        )

-- A weaker property of the addresses.
module _ (P Q : ℕ → ℕ → Type 0) (weaker : (a n : ℕ) → P a n → Q a n) where
  mutual
    unfolding AllNodes

    AllNodes-map : (n : XmlNode) → AllNodes P n → AllNodes Q n
    AllNodes-map (node cs a size) (h, hs) = (weaker a size h, AllChildren-map cs hs)

    pub AllChildren-map : (cs : XmlChildren) → AllChildren P cs → AllChildren Q cs
    AllChildren-map no_child hs = tt
    AllChildren-map (child name n cs) (h, hs) = (AllNodes-map n h, AllChildren-map cs hs)
