-- ===== src/XmlTag/Print.antt =====
-- The printing of a tree as XML and as JSON, in lib/xmltag.c, appended to a text.
use mbb_devel.Prelude.{
  ℕ, ◌/◌, ◌%◌, ◌+◌, ◌-◌, Bool, true, false, Option, none, some, List, [], ◌∷◌, ◌++◌,
}
use mbb_devel.Prelude.Tests.{◌==◌, ltb, leb, if◌then◌else◌}
use mbb_devel.Prelude.Text.{Bytes, codes}
use mbb_devel.Variant.{Variant, variant_to_string}
use mbb_devel.XmlTag.{XmlTag, Tags, Childs, Attrs, no_tags, then_tag, xml_tag, no_rows, row}

-- `g_markup_escape_text` is a parameter.
module _ (escape_text : Bytes → Bytes) where
  abbrev pub escaped : Bool → Bytes → Bytes
  escaped escape value = if escape then escape_text value else value

  unfoldable pub xml_tag_process_attr : Bool → Bytes × Variant → Bytes
  xml_tag_process_attr escape a = elim (variant_to_string a.1) [
    | none ↦ []
    | some value ↦ b' ' ∷ a.0 ++ codes "='" ++ escaped escape value ++ codes "'"
  ]

  unfoldable pub process_attrs : Bool → Attrs → Bytes
  process_attrs escape [] = []
  process_attrs escape (a ∷ attrs) = xml_tag_process_attr escape a ++ process_attrs escape attrs

  unfoldable pub process_body : Bool → Option Variant → Bytes
  process_body escape none = []
  process_body escape (some body) = elim (variant_to_string body) [
    | none ↦ []
    | some value ↦ escaped escape value
  ]

  -- A table of children is NULL until the first one is added, and never loses a row.
  unfoldable mutual
    pub xml_tag_process : Bool → Tags → Bytes
    xml_tag_process escape no_tags = []
    xml_tag_process escape (then_tag tag ts) = process_tag escape tag ++ xml_tag_process escape ts

    process_tag : Bool → XmlTag → Bytes
    process_tag escape (xml_tag name attrs none no_rows) =
        b'<' ∷ name ++ process_attrs escape attrs ++ codes "/>"
    process_tag escape (xml_tag name attrs (some body) childs) =
        b'<' ∷ name
        ++ process_attrs escape attrs
        ++ codes ">"
        ++ process_body escape (some body)
        ++ foreach_child escape childs
        ++ codes "</"
        ++ name
        ++ codes ">"
    process_tag escape (xml_tag name attrs none (row key ts childs)) =
        b'<' ∷ name
        ++ process_attrs escape attrs
        ++ codes ">"
        ++ foreach_child escape (row key ts childs)
        ++ codes "</"
        ++ name
        ++ codes ">"

    foreach_child : Bool → Childs → Bytes
    foreach_child escape no_rows = []
    foreach_child escape (row key ts childs) =
        xml_tag_process escape ts ++ foreach_child escape childs

  unfoldable pub xml_tag_to_string_common : Tags → Bool → Bytes
  xml_tag_to_string_common tag escape = xml_tag_process escape tag

  unfoldable pub xml_tag_to_string : Tags → Bytes
  xml_tag_to_string tag = xml_tag_to_string_common tag false

  unfoldable pub xml_tag_to_string_escape : Tags → Bytes
  xml_tag_to_string_escape tag = xml_tag_to_string_common tag true

-- A text is printed by its characters: `utf8_chars` stands for the loop of `g_utf8_get_char` and
-- `g_utf8_next_char`, and `unichar` for `g_string_append_unichar`.
module _ (utf8_chars : Bytes → List ℕ) (unichar : ℕ → Bytes) where
  -- `strchr` in `escape_chars`, and the letter at that place of `escape_pchars`.
  abbrev pub escape_letter : ℕ → Option ℕ
  escape_letter uc =
      if uc == b'\\'
      then some b'\\'
      else if uc == b'/'
      then some b'/'
      else if uc == b'"'
      then some b'"'
      else if uc == 8
      then some b'b'
      else if uc == 12
      then some b'f'
      else if uc == 10
      then some b'n'
      else if uc == 13
      then some b'r'
      else if uc == 9
      then some b't'
      else none

  abbrev pub hex_digit : ℕ → ℕ
  hex_digit n = if ltb n 10 then b'0' + n else b'a' + (n - 10)

  -- The directive `%x` of a number below 256.
  abbrev pub hex : ℕ → Bytes
  hex n = if ltb n 16 then hex_digit n ∷ [] else hex_digit (n / 16) ∷ hex_digit (n % 16) ∷ []

  -- One round of the loop of `json_escape`.
  unfoldable pub json_char : ℕ → Bytes
  json_char uc = if leb 0x80 uc then unichar uc else elim (escape_letter uc) [
    | some letter ↦ b'\\' ∷ letter ∷ []
    | none ↦ if ltb uc b' ' then b'\\' ∷ b'u' ∷ hex uc else unichar uc
  ]

  unfoldable pub json_chars : List ℕ → Bytes
  json_chars [] = []
  json_chars (uc ∷ s) = json_char uc ++ json_chars s

  unfoldable pub json_escape : Bytes → Bytes
  json_escape str = b'"' ∷ json_chars (utf8_chars str) ++ b'"' ∷ []

  -- `string->str[string->len - 1]`.
  abbrev pub last_byte : Bytes → ℕ
  last_byte [] = 0
  last_byte (c ∷ []) = c
  last_byte (c ∷ d ∷ s) = last_byte (d ∷ s)

  -- A comma, except behind an opening brace.
  abbrev pub separate : Bytes → Bytes
  separate string = if last_byte string == b'{' then string else string ++ b',' ∷ []

  unfoldable pub json_add_attr : Bytes × Variant → Bytes → Bytes
  json_add_attr a string = elim (variant_to_string a.1) [
    | none ↦ string
    | some value ↦ separate string ++ json_escape a.0 ++ b':' ∷ json_escape value
  ]

  unfoldable pub json_add_attrs : Attrs → Bytes → Bytes
  json_add_attrs [] string = string
  json_add_attrs (a ∷ attrs) string = json_add_attrs attrs (json_add_attr a string)

  unfoldable mutual
    -- `xml_tag_to_json_add_tag`.
    pub json_add_tag : XmlTag → Bytes → Bytes
    json_add_tag (xml_tag name attrs body childs) string =
        json_add_childs childs (json_add_attrs attrs (string ++ b'{' ∷ [])) ++ b'}' ∷ []

    -- `xml_tag_to_json_add` of each row.
    json_add_childs : Childs → Bytes → Bytes
    json_add_childs no_rows string = string
    json_add_childs (row name ts childs) string =
        json_add_childs childs
          (json_add_chain ts (separate string ++ json_escape name ++ b':' ∷ b'[' ∷ []) ++ b']' ∷ [])

    -- The loop over a chain.
    json_add_chain : Tags → Bytes → Bytes
    json_add_chain no_tags string = string
    json_add_chain (then_tag tag no_tags) string = json_add_tag tag string
    json_add_chain (then_tag tag (then_tag next ts)) string =
        json_add_chain (then_tag next ts) (json_add_tag tag string ++ b',' ∷ [])

  unfoldable pub xml_tag_to_json : XmlTag → Bytes
  xml_tag_to_json tag = json_add_tag tag []
