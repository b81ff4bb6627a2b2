-- ===== src/Json.antt =====
-- The values that `json.loads` returns, and the Python operations on them that the handlers use.
-- A number is a natural one: the program only asks of a number whether it is zero.
use Prim.Native.String.{String}
use mathlib.Core.Bool.{Bool, true, false, not}
use mathlib.Core.List.{List}
use mathlib.Core.Option.{Option, none, some}
use acme_lan.Prelude.{ℕ, eqb, ◌==◌, if◌then◌else◌}
use acme_lan.Prelude.Text.{is_empty}

mutual
  pub data Json : Type 0 where
    null : Json
    bool : Bool → Json
    num : ℕ → Json
    str : String → Json
    arr : Items → Json
    obj : Fields → Json

  pub data Items : Type 0 where
    nil : Items
    cons : Json → Items → Items

  pub data Fields : Type 0 where
    end : Fields
    field : String → Json → Fields → Fields

abbrev pub items : Items → List Json
items nil = List.[]
items (cons j js) = List.◌∷◌ j (items js)

abbrev pub of_list : List Json → Items
of_list List.[] = nil
of_list (List.◌∷◌ j js) = cons j (of_list js)

-- `bool(value)`.
abbrev pub truthy : Json → Bool
truthy null = false
truthy (bool b) = b
truthy (num n) = not (eqb n 0)
truthy (str s) = not (is_empty s)
truthy (arr nil) = false
truthy (arr (cons _ _)) = true
truthy (obj end) = false
truthy (obj (field _ _ _)) = true

-- `fields.get(key)`; a missing key gives `None`, as the value `null` does.
abbrev pub get : String → Fields → Json
get key end = null
get key (field k v more) = if k == key then v else get key more

-- `key in fields`.
abbrev pub has : String → Fields → Bool
has key end = false
has key (field k v more) = if k == key then true else has key more

-- `isinstance(value, str)`.
abbrev pub as_text : Json → Option String
as_text (str s) = some s
as_text _ = none

-- `value == "..."`.
abbrev pub is_text : String → Json → Bool
is_text s (str t) = t == s
is_text s _ = false

-- `value or {}`, for a value that may be absent.
abbrev pub or_empty : Option Json → Json
or_empty none = obj end
or_empty (some j) = if truthy j then j else obj end
