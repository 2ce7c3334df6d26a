-- ===== src/Contracts/Json.antt =====
-- packages/contracts/src/json.ts: JSON values, their text and their structural equality.
-- A value that `parseJsonValue` accepts is a value of `Json`. An object is its own enumerable
-- properties in insertion order. `whole n` is n, `negative n` is -(n + 1), and `fraction t` is any
-- other finite number, by the text that `JSON.stringify` writes for it.
use Prim.Native.String.{◌++◌ as append}
use managed_agents.Common.{
  ℕ, suc, ◌/◌, ◌%◌, Char, code, String, Bool, true, false, ◌&&◌, Option, none, some, ltb, ◌==◌,
  if◌then◌else◌, str_eq,
}
use managed_agents.Contracts.Text.{decimal, hex_digit}

pub data Number : Type 0 where
  whole : ℕ → Number
  negative : ℕ → Number
  fraction : String → Number

mutual
  pub data Json : Type 0 where
    null : Json
    bool : Bool → Json
    num : Number → Json
    str : String → Json
    arr : Items → Json
    obj : Fields → Json

  pub data Items : Type 0 where
    nil : Items
    cons : Json → Items → Items

  pub data Fields : Type 0 where
    end : Fields
    field : String → Json → Fields → Fields

-- `value.key`, undefined where there is no such property
unfoldable pub get : String → Fields → Option Json
get key end = none
get key (field k v rest) = if str_eq k key then some v else get key rest

unfoldable pub size : Fields → ℕ
size end = 0
size (field k v rest) = suc (size rest)

unfoldable pub count : Items → ℕ
count nil = 0
count (cons v rest) = suc (count rest)

-- `left === right` at numbers and booleans
abbrev pub number_equals : Number → Number → Bool
number_equals (whole m) (whole n) = m == n
number_equals (negative m) (negative n) = m == n
number_equals (fraction s) (fraction t) = str_eq s t
number_equals _ _ = false

abbrev pub bool_equals : Bool → Bool → Bool
bool_equals true b = b
bool_equals false true = false
bool_equals false false = true

unfoldable mutual
  pub json_equals : Json → Json → Bool
  json_equals null null = true
  json_equals (bool a) (bool b) = bool_equals a b
  json_equals (num a) (num b) = number_equals a b
  json_equals (str a) (str b) = str_eq a b
  json_equals (arr xs) (arr ys) = count xs == count ys && items_equal xs ys
  json_equals (obj fs) (obj gs) = size fs == size gs && fields_equal fs gs
  json_equals _ _ = false

  -- `left.every((value, index) => jsonEquals(value, right[index]))`
  pub items_equal : Items → Items → Bool
  items_equal nil ys = true
  items_equal (cons x xs) nil = false
  items_equal (cons x xs) (cons y ys) = json_equals x y && items_equal xs ys

  -- `keys.every(key => Object.hasOwn(right, key) && jsonEquals(left[key], right[key]))`
  pub fields_equal : Fields → Fields → Bool
  fields_equal end gs = true
  fields_equal (field k v rest) gs = elim (get k gs) [
    | none ↦ false
    | some w ↦ json_equals v w && fields_equal rest gs
  ]

-- the escapes of `JSON.stringify` at one character
escape : Char → String → String
escape c rest =
    if code c == 0x22
    then append "\\\"" rest
    else if code c == 0x5c
    then append "\\\\" rest
    else if code c == 0x8
    then append "\\b" rest
    else if code c == 0x9
    then append "\\t" rest
    else if code c == 0xa
    then append "\\n" rest
    else if code c == 0xc
    then append "\\f" rest
    else if code c == 0xd
    then append "\\r" rest
    else if ltb (code c) 0x20
    then append "\\u00"
        (String.◌∷◌ (hex_digit (code c / 16)) (String.◌∷◌ (hex_digit (code c % 16)) rest))
    else String.◌∷◌ c rest

escaped : String → String
escaped String.[] = "\""
escaped (String.◌∷◌ c rest) = escape c (escaped rest)

unfoldable pub quote : String → String
unfolding escape escaped
quote s = append "\"" (escaped s)

unfoldable pub number_text : Number → String
number_text (whole n) = decimal n
number_text (negative n) = append "-" (decimal (suc n))
number_text (fraction t) = t

-- `JSON.stringify`
unfoldable mutual
  pub stringify : Json → String
  stringify null = "null"
  stringify (bool true) = "true"
  stringify (bool false) = "false"
  stringify (num n) = number_text n
  stringify (str s) = quote s
  stringify (arr nil) = "[]"
  stringify (arr (cons v rest)) = append "[" (append (stringify v) (stringify_items rest))
  stringify (obj end) = "{}"
  stringify (obj (field k v rest)) =
      append "{" (append (quote k) (append ":" (append (stringify v) (stringify_fields rest))))

  pub stringify_items : Items → String
  stringify_items nil = "]"
  stringify_items (cons v rest) = append "," (append (stringify v) (stringify_items rest))

  pub stringify_fields : Fields → String
  stringify_fields end = "}"
  stringify_fields (field k v rest) =
      append "," (append (quote k) (append ":" (append (stringify v) (stringify_fields rest))))
