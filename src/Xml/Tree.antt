-- ===== src/Xml/Tree.antt =====
-- XMLNode of lib/xml/xmlparser.hpp and populateTree of lib/xml/xmlparser.cpp: the tree of a message.
-- The document of Xerces is what its functions return for it: an element has a tag name and child
-- nodes, which are elements, texts (CDATA sections too) and others.
use http.Base.{
  ℕ, ◌+◌, Bool, true, false, Option, none, some, [], ◌++◌, Bytes, equal, find, length, null,
  if◌then◌else◌,
}
use http.Xml.{find_from, trim_copy}

mutual
  pub data DomElement : Type 0 where
    element : Bytes → DomNodes → DomElement

  pub data DomNodes : Type 0 where
    no_node : DomNodes
    element_node : DomElement → DomNodes → DomNodes
    text_node : Bytes → DomNodes → DomNodes
    other_node : DomNodes → DomNodes

-- `Children`, `Address` and `Length`; the null pointer is 0. A map is a list of its entries.
mutual
  pub data XmlNode : Type 0 where
    node : XmlChildren → ℕ → ℕ → XmlNode

  pub data XmlChildren : Type 0 where
    no_child : XmlChildren
    child : Bytes → XmlNode → XmlChildren → XmlChildren

abbrev pub tag_name : DomElement → Bytes
tag_name (element name nodes) = name

abbrev pub empty_node : XmlNode
empty_node = node no_child 0 0

unfoldable pub find_child : Bytes → XmlChildren → Option XmlNode
unfolding equal
find_child key no_child = none
find_child key (child name n cs) =
    let rest = find_child key cs in if equal name key then some n else rest

-- `at` of the node; `none` is the exception.
abbrev pub at : Bytes → XmlNode → Option XmlNode
at key (node cs address length) = find_child key cs

-- What `Children[Key]` refers to.
unfoldable pub child_or_new : Bytes → XmlChildren → XmlNode
unfolding find_child
child_or_new key cs = elim (find_child key cs) [ none ↦ empty_node | some n ↦ n ]

-- The map after an assignment to `Children[Key]`.
unfoldable pub set_child : Bytes → XmlNode → XmlChildren → XmlChildren
unfolding equal
set_child key n no_child = child key n no_child
set_child key n (child name m cs) =
    let rest = set_child key n cs in if equal name key then child name n cs else child name m rest

abbrev pub has_element_children : DomNodes → Bool
has_element_children no_node = false
has_element_children (element_node e ns) = true
has_element_children (text_node t ns) = has_element_children ns
has_element_children (other_node ns) = has_element_children ns

-- `Value` of `getElementText` before it is trimmed.
unfoldable pub text_values : DomNodes → Bytes
text_values no_node = []
text_values (element_node e ns) = text_values ns
text_values (text_node t ns) = t ++ text_values ns
text_values (other_node ns) = text_values ns

unfoldable pub get_element_text : DomNodes → Bytes
unfolding text_values trim_copy
get_element_text ns = trim_copy (text_values ns)

module _ (data_address : ℕ) (raw_message : Bytes) where
  abbrev pub placed : ℕ → Bytes → XmlNode → XmlNode × ℕ
  placed found value (node cs address length_) =
      (node cs (data_address + found) (length value), found + length value)

  -- `populateTree` on an element without element children, with its text.
  unfoldable pub place_text : Bytes → XmlNode → ℕ → XmlNode × ℕ
  unfolding find_from find
  place_text value n search_offset =
      let searched : XmlNode × ℕ = elim (find_from raw_message value search_offset) [
        | some found ↦ placed found value n
        | none ↦ elim (find raw_message value) [
          | some found ↦ placed found value n
          | none ↦ (n, search_offset)
        ]
      ] in
      if null value then (n, search_offset) else searched

  -- The result is the node and `SearchOffset` after the call; the second function is the loop over
  -- the element children.
  unfoldable mutual
    unfolding place_text get_element_text child_or_new set_child

    pub populate_tree : DomElement → XmlNode → ℕ → XmlNode × ℕ
    populate_tree (element name nodes) n search_offset =
        let populated = populate_children nodes n search_offset in
        if has_element_children nodes
        then populated
        else place_text (get_element_text nodes) n search_offset

    pub populate_children : DomNodes → XmlNode → ℕ → XmlNode × ℕ
    populate_children no_node n search_offset = (n, search_offset)
    populate_children (text_node t nodes) n search_offset = populate_children nodes n search_offset
    populate_children (other_node nodes) n search_offset = populate_children nodes n search_offset
    populate_children (element_node e nodes) (node cs address length_) search_offset =
        let (populated, offset) = populate_tree e (child_or_new (tag_name e) cs) search_offset in
        populate_children nodes (node (set_child (tag_name e) populated cs) address length_) offset
