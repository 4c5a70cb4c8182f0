-- ===== src/Tests/XmlWitnesses.antt =====
-- XML messages with one element, in a buffer at the address 1000.
use http.Base.{
  ◌≡◌, refl, Option, none, some, List, [], ◌∷◌, ◌++◌, Bytes, codes, find, arith, All, subst,
}
use http.Xml.{split_messages, split_messages_loop, nlap_xml_start_marker}
use http.Xml.Framing.{messages, slices}
use http.Xml.Enough.{split_messages-enough}
use http.Xml.Tree.{DomElement, element, no_node, element_node, text_node, get_element_text}
use http.Xml.Placed.{IsPlaced, AllTextsIn, AllChildren}
use http.Xml.Parse.{SaxCall, XmlParser, child_nodes, handle_all, parse}
use http.Xml.Parse.Outcome.{
  IsValid, trees, parse-framed, parse-gap, AllOrNothing, parse-AllOrNothing,
}
use http.Xml.Parse.Addresses.{HasTexts, parse-IsPlaced}

abbrev body : Bytes
body = codes "<r>hi</r>"

abbrev hi_root : DomElement
hi_root =
    element (codes "nlap")
      (element_node (element (codes "r") (text_node (codes "hi") no_node)) no_node)

abbrev no_calls : Bytes → List SaxCall
no_calls text = []

abbrev hi_document : Bytes → Option (Option DomElement)
hi_document text = some (some hi_root)

abbrev parser : XmlParser
parser = record { parse_buffer_size = 1024 }

always-IsValid : (raw : Bytes) → IsValid no_calls no_calls hi_document raw
unfolding handle_all
always-IsValid raw = record { syntax = refl; content = refl; root = hi_root; rooted = refl }

parse-framed_example :
    parse no_calls no_calls hi_document parser 1000
      (some (codes "x" ++ messages (body ∷ body ∷ []) (codes "y")))
    ≡ record {
      results =
          trees no_calls no_calls hi_document 1000
            (slices 1 (body ∷ body ∷ []))
            (always-IsValid _, (always-IsValid _, tt));
      error_code = 0;
    }
unfolding find
parse-framed_example =
    parse-framed no_calls no_calls hi_document parser 1000 (codes "x") body (body ∷ []) (codes "y")
      (always-IsValid _, (always-IsValid _, tt)) (omega arith) refl (refl, (refl, tt)) refl

parse-gap_example :
    parse no_calls no_calls hi_document parser 1000
      (some (codes "x" ++ messages (body ∷ []) (codes " " ++ (nlap_xml_start_marker ++ body))))
    ≡ record { results = []; error_code = 30 }
unfolding find
parse-gap_example =
    parse-gap no_calls no_calls hi_document parser 1000 (codes "x") body [] (codes " ") body
      (always-IsValid _, tt) (omega arith) refl (refl, tt) refl (omega arith)

split_messages-enough_example :
    split_messages_loop 500 (messages (body ∷ []) (codes "y")) 0 none
    ≡ split_messages (messages (body ∷ []) (codes "y"))
split_messages-enough_example =
    split_messages-enough 500 (messages (body ∷ []) (codes "y")) (omega arith)

parse-AllOrNothing_example :
    AllOrNothing
      (some (messages (body ∷ []) []))
      (parse no_calls no_calls hi_document parser 1000 (some (messages (body ∷ []) [])))
parse-AllOrNothing_example =
    parse-AllOrNothing no_calls no_calls hi_document parser 1000 (some (messages (body ∷ []) []))

abbrev IsHi : Bytes → Type 0
IsHi value = value ≡ codes "hi"

hi_root-AllTextsIn : AllTextsIn IsHi (child_nodes hi_root)
unfolding AllTextsIn get_element_text
hi_root-AllTextsIn = (((λ leaf. refl), tt), tt)

hi_document-HasTexts : HasTexts IsHi 1000 (messages (body ∷ []) []) no_calls no_calls hi_document
hi_document-HasTexts parseable root rooted =
    let same : hi_root ≡ root = cc in
    subst (λ r. AllTextsIn IsHi (child_nodes r)) same hi_root-AllTextsIn

parse-IsPlaced_example :
    All
      (AllChildren (IsPlaced IsHi 1000 (messages (body ∷ []) [])))
      (parse no_calls no_calls hi_document parser 1000 (some (messages (body ∷ []) []))).results
parse-IsPlaced_example =
    parse-IsPlaced IsHi 1000 (messages (body ∷ []) []) no_calls no_calls hi_document parser
      hi_document-HasTexts

abbrev inner : Bytes
inner = codes "<r><?xml version='1.0'?></r></nlap>"
