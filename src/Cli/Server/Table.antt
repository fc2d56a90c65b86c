-- ===== src/Cli/Server/Table.antt =====
-- crates/edison-stdiod/src/cli/server.rs: the servers of a list, their order and the table.
use Prim.Native.Char.{code}
use stdiod.Base.{
  ℕ, zero, suc, ◌-◌, String, Bool, true, false, ◌&&◌, Option, some, List, [], ◌∷◌, value_or,
  if◌then◌else◌, eqb, ltb, same_text?,
}
use stdiod.Base.Text.{append, chars, trim_end}
use stdiod.Base.Text.Decimal.{decimal}
use stdiod.Protocol.{Json, boolean, natural, text, object, Items, nil, cons, end, field}
use stdiod.Protocol.Wire.{text_or_null}

pub record ServerListItem : Type 0 where
  pub name : String
  pub display_name : Option String
  pub enabled : Bool
  pub tool_count : ℕ
  pub transport_type : Option String
  pub device_id : Option String

-- `left.name.cmp(&right.name)`, as whether left comes first or they are equal.
unfoldable pub text_leb : String → String → Bool
text_leb String.[] t = true
text_leb (String.◌∷◌ c s) String.[] = false
text_leb (String.◌∷◌ c s) (String.◌∷◌ d t) =
    let rest = text_leb s t in
    if ltb (code c) (code d) then true else if eqb (code c) (code d) then rest else false

unfoldable pub insert_by_name : ServerListItem → List ServerListItem → List ServerListItem
insert_by_name item [] = item ∷ []
insert_by_name item (first ∷ rest) =
    let later = insert_by_name item rest in
    if text_leb item.name first.name then item ∷ first ∷ rest else first ∷ later

-- The stable sort.
unfoldable pub sort_by_name : List ServerListItem → List ServerListItem
sort_by_name [] = []
sort_by_name (item ∷ rest) = insert_by_name item (sort_by_name rest)

-- The servers of this device that the tunnel runs.
unfoldable pub is_own : String → ServerListItem → Bool
is_own device item =
    same_text? item.transport_type (some "stdio_tunnel") && same_text? item.device_id (some device)

unfoldable pub retain : (ServerListItem → Bool) → List ServerListItem → List ServerListItem
retain keeps [] = []
retain keeps (item ∷ rest) =
    let kept = retain keeps rest in if keeps item then item ∷ kept else kept

unfoldable pub item_json : ServerListItem → Json
item_json item = object (
    field "name" (text item.name) (
      field "display_name" (text_or_null item.display_name) (
        field "enabled" (boolean item.enabled) (
          field "tool_count" (natural item.tool_count)
            (field "device_id" (text_or_null item.device_id) end)))))

unfoldable pub items_json : List ServerListItem → Items
items_json [] = nil
items_json (item ∷ rest) = cons (item_json item) (items_json rest)

unfoldable pub spaces : ℕ → String
spaces zero = ""
spaces (suc n) = append " " (spaces n)

-- `{:<width}`
unfoldable pub pad_right : ℕ → String → String
pad_right width s = append s (spaces (width - chars s))

unfoldable pub row : (name enabled tools display : String) → String
row name enabled tools display = append (pad_right 24 name) (
    append " " (
      append (pad_right 8 enabled)
        (append " " (append (pad_right 6 tools) (append " " (append display "\n"))))))

unfoldable pub rows : List ServerListItem → String
rows [] = ""
rows (item ∷ rest) =
    append
      (row item.name (if item.enabled then "true" else "false") (decimal item.tool_count)
        (value_or item.display_name ""))
      (rows rest)

unfoldable pub table : List ServerListItem → String
table items = trim_end (
    append (row "name" "enabled" "tools" "display")
      (append (row "----" "-------" "-----" "-------") (rows items)))
