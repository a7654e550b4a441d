-- ===== src/Router/Json.antt =====
-- JSON values as encoding/json decodes them into `any`, and the searches in them of
-- services/api/internal/router/tplink.go. The fields of an object stand in the order in which
-- `range` visits them, which Go leaves open. `strconv.ParseFloat` is a parameter.
mod Tests
use homelink_monitor.Base.{
  Bool, true, false, Option, none, some, List, [], ◌∷◌, ◌++◌, Text, text_eq, is_empty,
  if◌then◌else◌, contains, split, remove_byte, trim_space,
}

mutual
  pub data Json (F : Type 0) : Type 0 where
    null : Json F
    flag : Bool → Json F
    number : F → Json F
    text : Text → Json F
    array : Items F → Json F
    object : Fields F → Json F

  pub data Items (F : Type 0) : Type 0 where
    nil : Items F
    item : Json F → Items F → Items F

  pub data Fields (F : Type 0) : Type 0 where
    end : Fields F
    field : Text → Json F → Fields F → Fields F

unfoldable mutual
  pub collect_objects : {F : Type 0} → Json F → List (Fields F)
  collect_objects null = []
  collect_objects (flag b) = []
  collect_objects (number x) = []
  collect_objects (text s) = []
  collect_objects (array xs) = collect_items xs
  collect_objects (object fs) = fs ∷ collect_fields fs

  pub collect_items : {F : Type 0} → Items F → List (Fields F)
  collect_items nil = []
  collect_items (item x xs) = collect_objects x ++ collect_items xs

  pub collect_fields : {F : Type 0} → Fields F → List (Fields F)
  collect_fields end = []
  collect_fields (field key x fs) = collect_objects x ++ collect_fields fs

module _ {F : Type 0} where
  -- `m[key]`.
  unfoldable pub get : Fields F → Text → Option (Json F)
  get end key = none
  get (field k x fs) key = let rest = get fs key in if text_eq k key then some x else rest

  -- `value.(string)`, of a value that may be missing.
  abbrev pub as_text : Option (Json F) → Option Text
  as_text (some (text s)) = some s
  as_text _ = none

  abbrev pub or_null : Option (Json F) → Json F
  or_null none = null
  or_null (some x) = x

  -- The first of the keys that has a string decides, even an empty one.
  unfoldable pub first_string : Fields F → List Text → Text
  first_string m [] = []
  first_string m (key ∷ keys) = elim (as_text (get m key)) [
    | some s ↦ trim_space s
    | none ↦ first_string m keys
  ]

  -- `findPath`: a missing key is nil, and so is what lies below it.
  unfoldable pub find_path : Json F → List Text → Json F
  find_path v [] = v
  find_path (object m) (part ∷ parts) = find_path (or_null (get m part)) parts
  find_path _ (part ∷ parts) = null

  -- The first object in which the key has a string that is not blank.
  unfoldable pub find_in_objects : List (Fields F) → Text → Text
  find_in_objects [] key = []
  find_in_objects (m ∷ objects) key =
      let rest = find_in_objects objects key in
      if is_empty (first_string m (key ∷ [])) then rest else first_string m (key ∷ [])

  -- `findString`. A key with a dot is a path.
  unfoldable pub find_string : Json F → List Text → Text
  find_string v [] = []
  find_string v (key ∷ keys) = elim (contains key (b'.' ∷ [])) [
    | true ↦ elim (as_text (some (find_path v (split b'.' key)))) [
      | some s ↦ s
      | none ↦ find_string v keys
    ]
    | false ↦ elim (is_empty (find_in_objects (collect_objects v) key)) [
      | true ↦ find_string v keys
      | false ↦ find_in_objects (collect_objects v) key
    ]
  ]

  unfoldable pub texts_of : Items F → List Text
  texts_of nil = []
  texts_of (item (text s) xs) = s ∷ texts_of xs
  texts_of (item _ xs) = texts_of xs

  abbrev pub list_of : Option (Json F) → List Text
  list_of (some (array xs)) = texts_of xs
  list_of _ = []

  unfoldable pub list_in_objects : List (Fields F) → Text → List Text
  list_in_objects [] key = []
  list_in_objects (m ∷ objects) key = elim (list_of (get m key)) [
    | [] ↦ list_in_objects objects key
    | s ∷ texts ↦ s ∷ texts
  ]

  unfoldable pub find_string_list : Json F → Text → List Text
  find_string_list v key = list_in_objects (collect_objects v) key

  abbrev pub as_flag : Option (Json F) → Option Bool
  as_flag (some (flag b)) = some b
  as_flag _ = none

  unfoldable pub flag_in_objects : List (Fields F) → Text → Bool
  flag_in_objects [] key = false
  flag_in_objects (m ∷ objects) key = elim (as_flag (get m key)) [
    | some b ↦ b
    | none ↦ flag_in_objects objects key
  ]

  unfoldable pub find_bool : Json F → Text → Bool
  find_bool v key = flag_in_objects (collect_objects v) key

module _ {F : Type 0} (parse_float : Text → Option F) where
  -- `numberValue`. A comma in a text is dropped. JSON yields no Go `int`.
  unfoldable pub number_value : Json F → Option F
  number_value (number x) = some x
  number_value (text s) =
      if is_empty (trim_space (remove_byte b',' s))
      then none
      else parse_float (trim_space (remove_byte b',' s))
  number_value _ = none

  abbrev pub number_of : Option (Json F) → Option F
  number_of none = none
  number_of (some x) = number_value x

  -- `firstNumber`, and `firstRate`, which has the same body.
  unfoldable pub first_number : Fields F → List Text → Option F
  first_number m [] = none
  first_number m (key ∷ keys) = elim (number_of (get m key)) [
    | some x ↦ some x
    | none ↦ first_number m keys
  ]

  unfoldable pub number_in_objects : List (Fields F) → Text → Option F
  number_in_objects [] key = none
  number_in_objects (m ∷ objects) key = elim (first_number m (key ∷ [])) [
    | some x ↦ some x
    | none ↦ number_in_objects objects key
  ]

  unfoldable pub find_float : Json F → List Text → Option F
  find_float v [] = none
  find_float v (key ∷ keys) = elim (number_in_objects (collect_objects v) key) [
    | some x ↦ some x
    | none ↦ find_float v keys
  ]
