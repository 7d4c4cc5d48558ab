-- ===== src/FreedomPay/Rendering.antt =====
-- The text of an answer: `RenderResponse` of internal/infrastructure/freedompay/xml.go, and what
-- internal/infrastructure/freedompay/replace.go changes in it. Positions count characters where Go's
-- count bytes.
use Prim.Native.String.{◌++◌ as str_append}
use chaospay.Prelude.{ℕ, zero, suc, ◌+◌, String, Option, none, some, ltb, str_eq, if◌then◌else◌}
use chaospay.Epay.Invoice.{strip_prefix}
use chaospay.FreedomPay.{Value, OrdMap, Maps, text, child, children, end, pair, no_maps, more_maps}

-- `escapeXML`, for one character.
unfoldable pub escaped : String → String
escaped c =
    if str_eq c "&"
    then "&amp;"
    else if str_eq c "<"
    then "&lt;"
    else if str_eq c ">"
    then "&gt;"
    else if str_eq c "\""
    then "&quot;"
    else if str_eq c "'"
    then "&apos;"
    else c

-- `escapeXML`
unfoldable pub escape_xml : String → String
unfolding escaped
escape_xml String.[] = ""
escape_xml (String.◌∷◌ c s) = str_append (escaped (String.◌∷◌ c "")) (escape_xml s)

abbrev pub open_tag : String → String
open_tag tag = str_append "<" (str_append tag ">")

abbrev pub close_tag : String → String
close_tag tag = str_append "</" (str_append tag ">")

abbrev in_tag : String → String → String
in_tag tag body = str_append (open_tag tag) (str_append body (close_tag tag))

-- `renderFields`
unfoldable mutual
  unfolding escape_xml

  pub render_fields : OrdMap → String
  render_fields end = ""
  render_fields (pair key v m) = str_append (render_value key v) (render_fields m)

  pub render_value : String → Value → String
  render_value key (text s) = in_tag key (escape_xml s)
  render_value key (child m) = in_tag key (render_fields m)
  render_value key (children ms) = render_maps key ms

  pub render_maps : String → Maps → String
  render_maps key no_maps = ""
  render_maps key (more_maps m ms) = str_append (in_tag key (render_fields m)) (render_maps key ms)

abbrev pub xml_prefix : String
xml_prefix = "<?xml version=\"1.0\" encoding=\"utf-8\"?>"

-- `RenderResponse`
unfoldable pub render_response : String → OrdMap → String
unfolding render_fields
render_response root_name fields = str_append xml_prefix (in_tag root_name (render_fields fields))

-- `strings.Index` at a text that is not empty; `none` is -1.
unfoldable pub index_of : String → String → Option ℕ
unfolding strip_prefix
index_of needle String.[] = none
index_of needle (String.◌∷◌ c s) = elim (strip_prefix needle (String.◌∷◌ c s)) [
  | some rest ↦ some 0
  | none ↦ elim (index_of needle s) [ none ↦ none | some n ↦ some (suc n) ]
]

unfoldable pub text_before : ℕ → String → String
text_before zero s = ""
text_before (suc n) String.[] = ""
text_before (suc n) (String.◌∷◌ c s) = String.◌∷◌ c (text_before n s)

unfoldable pub text_from : ℕ → String → String
text_from zero s = s
text_from (suc n) String.[] = ""
text_from (suc n) (String.◌∷◌ c s) = text_from n s

abbrev pub text_length : String → ℕ
text_length String.[] = 0
text_length (String.◌∷◌ c s) = suc (text_length s)

-- `ReplaceTagValue`
unfoldable pub replace_tag_value : String → String → String → String
unfolding index_of text_before text_from
replace_tag_value body tag value = elim (index_of (open_tag tag) body) [
  | none ↦ body
  | some start ↦ elim (index_of (close_tag tag) body) [
    | none ↦ body
    | some stop ↦
        if ltb stop start
        then body
        else str_append (text_before (start + text_length (open_tag tag)) body)
            (str_append value (text_from stop body))
  ]
]

-- `RemoveTag`
unfoldable pub remove_tag : String → String → String
unfolding index_of text_before text_from
remove_tag body tag = elim (index_of (open_tag tag) body) [
  | none ↦ body
  | some start ↦ elim (index_of (close_tag tag) (text_from start body)) [
    | none ↦ body
    | some stop ↦
        str_append (text_before start body)
          (text_from (start + stop + text_length (close_tag tag)) body)
  ]
]
