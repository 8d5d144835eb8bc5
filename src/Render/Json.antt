-- ===== src/Render/Json.antt =====
-- The JSON values that internal/render builds out of map[string]any and []any.
use ssh_bot.Base.{Bool, List, [], ◌∷◌, Bytes, utf8, String}

mutual
  pub data Json : Type 0 where
    str : Bytes → Json
    bool : Bool → Json
    arr : Items → Json
    obj : Fields → Json

  pub data Items : Type 0 where
    no_items : Items
    item : Json → Items → Items

  pub data Fields : Type 0 where
    no_fields : Fields
    field : Bytes → Json → Fields → Fields

abbrev pub items : List Json → Items
items [] = no_items
items (j ∷ js) = item j (items js)

abbrev pub fields : List (Bytes × Json) → Fields
fields [] = no_fields
fields ((k, j) ∷ fs) = field k j (fields fs)

-- map[string]any{"tag": tag, key: value}
pub tagged : String → String → Json → Json
tagged tag key value = obj (fields ((utf8 "tag", str (utf8 tag)) ∷ (utf8 key, value) ∷ []))

-- map[string]any{"tag": "hr"}
pub hr : Json
hr = obj (fields ((utf8 "tag", str (utf8 "hr")) ∷ []))

-- {"tag": "div", "text": {"tag": "lark_md", "content": content}}
pub lark_div : Bytes → Json
unfolding tagged
lark_div content = tagged "div" "text" (tagged "lark_md" "content" (str content))

-- {"tag": "note", "elements": [{"tag": "plain_text", "content": content}]}
pub note : Bytes → Json
unfolding tagged
note content =
    tagged "note" "elements" (arr (items (tagged "plain_text" "content" (str content) ∷ [])))
