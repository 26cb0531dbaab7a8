-- ===== src/Vault/Configure/Values.antt =====
-- The free-form values (interface{}) of the configuration that Configure of pkg/vault/vault.go reads,
-- with Go's type assertions and the texts that package fmt makes of them.
use bank_vaults.Prelude.{
  String, Bool, ℤ, pos, negsuc, suc, decimal, Option, none, some, List, [], ◌∷◌, Result, ok, panic,
  Dict, lookup, concat, ◌==◌, if◌then◌else◌, ◌≡◌, refl, arith,
}

-- A list is a []interface{}, an object a map[string]interface{} and a mapping a
-- map[interface{}]interface{}; a float64 is the text that fmt makes of it.
mutual
  pub data Value : Type 0 where
    nil : Value
    text : String → Value
    truth : Bool → Value
    whole : ℤ → Value
    float : String → Value
    array : Values → Value
    object : Fields → Value
    mapping : Entries → Value

  pub data Values : Type 0 where
    stop : Values
    item : Value → Values → Values

  pub data Fields : Type 0 where
    end : Fields
    field : String → Value → Fields → Fields

  pub data Entries : Type 0 where
    last : Entries
    entry : Value → Value → Entries → Entries

-- %T
type_name : Value → String
type_name nil = "nil"
type_name (text s) = "string"
type_name (truth b) = "bool"
type_name (whole n) = "int"
type_name (float s) = "float64"
type_name (array vs) = "[]interface {}"
type_name (object m) = "map[string]interface {}"
type_name (mapping m) = "map[interface {}]interface {}"

assertion : String → Value → String
unfolding type_name
assertion wanted v =
    concat ("interface conversion: interface {} is " ∷ type_name v ∷ ", not " ∷ wanted ∷ [])

-- v.(string)
unfoldable pub as_string : Value → Result String String
unfolding assertion
as_string (text s) = ok s
as_string v = panic (assertion "string" v)

abbrev pub to_list : Values → List Value
to_list stop = []
to_list (item v vs) = v ∷ to_list vs

-- v.([]interface{})
unfoldable pub as_list : Value → Result String (List Value)
unfolding assertion
as_list (array vs) = ok (to_list vs)
as_list v = panic (assertion "[]interface {}" v)

-- v.(map[interface{}]interface{})
unfoldable pub as_mapping : Value → Result String Entries
unfolding assertion
as_mapping (mapping m) = ok m
as_mapping v = panic (assertion "map[interface {}]interface {}" v)

-- An assertion that holds tells the value.
pub as_string-eq-ok : (v : Value) {s : String} → as_string v ≡ ok s → v ≡ text s
unfolding as_string
as_string-eq-ok v h = ground arith

pub as_mapping-eq-ok : (v : Value) {m : Entries} → as_mapping v ≡ ok m → v ≡ mapping m
unfolding as_mapping
as_mapping-eq-ok v h = ground arith

pub as_list-eq-ok :
    (v : Value) {items : List Value}
    → as_list v ≡ ok items
    → (vs : Values) × (v ≡ array vs) × (items ≡ to_list vs)
unfolding as_list
as_list-eq-ok (array vs) h = (vs, refl, ground arith)
as_list-eq-ok v h = ground arith

-- m[k] of a map[string]interface{}: nil for a missing key
or_nil : Option Value → Value
or_nil none = nil
or_nil (some v) = v

unfoldable pub at : String → Dict Value → Value
unfolding or_nil
at k m = or_nil (lookup k m)

-- Whether an interface{} equals a string.
equals_text : String → Value → Bool
equals_text k (text s) = s == k
equals_text k v = Bool.false

-- m[k] of a map[interface{}]interface{}, for a string `k`
unfoldable pub entry_at : String → Entries → Value
unfolding equals_text
entry_at k last = nil
entry_at k (entry key v m) = let rest = entry_at k m in if equals_text k key then v else rest

-- The verbs %v and %s.
pub data Verb : Type 0 where
  default : Verb
  string : Verb

-- What a verb makes of a value that is no string: %s marks it as an error.
marked : Verb → String → String → String
marked default type_of t = t
marked string type_of t = concat ("%!s(" ∷ type_of ∷ "=" ∷ t ∷ ")" ∷ [])

nil_text : Verb → String
nil_text default = "<nil>"
nil_text string = "%!s(<nil>)"

bool_text : Bool → String
bool_text Bool.true = "true"
bool_text Bool.false = "false"

int_text : ℤ → String
int_text (pos n) = decimal n
int_text (negsuc n) = concat ("-" ∷ decimal (suc n) ∷ [])

-- A blank before every element but the first.
spaced : Bool → String → String → String
spaced Bool.true t rest = concat (t ∷ rest ∷ [])
spaced Bool.false t rest = concat (" " ∷ t ∷ rest ∷ [])

unfoldable mutual
  unfolding marked nil_text bool_text int_text spaced

  -- fmt.Sprintf of a verb; a map is shown in the order in which its entries are visited.
  pub shown : Verb → Value → String
  shown verb nil = nil_text verb
  shown verb (text s) = s
  shown verb (truth b) = marked verb "bool" (bool_text b)
  shown verb (whole n) = marked verb "int" (int_text n)
  shown verb (float t) = marked verb "float64" t
  shown verb (array vs) = concat ("[" ∷ shown_values verb Bool.true vs ∷ "]" ∷ [])
  shown verb (object m) = concat ("map[" ∷ shown_fields verb Bool.true m ∷ "]" ∷ [])
  shown verb (mapping m) = concat ("map[" ∷ shown_entries verb Bool.true m ∷ "]" ∷ [])

  shown_values : Verb → Bool → Values → String
  shown_values verb first stop = ""
  shown_values verb first (item v vs) =
      spaced first (shown verb v) (shown_values verb Bool.false vs)

  shown_fields : Verb → Bool → Fields → String
  shown_fields verb first end = ""
  shown_fields verb first (field k v m) =
      spaced first (concat (k ∷ ":" ∷ shown verb v ∷ [])) (shown_fields verb Bool.false m)

  shown_entries : Verb → Bool → Entries → String
  shown_entries verb first last = ""
  shown_entries verb first (entry k v m) =
      spaced first (concat (shown verb k ∷ ":" ∷ shown verb v ∷ []))
        (shown_entries verb Bool.false m)

to_fields : Dict Value → Fields
to_fields [] = end
to_fields ((k, v) ∷ m) = field k v (to_fields m)

-- %s of a map[string]interface{}
pub shown_map : Dict Value → String
unfolding to_fields shown
shown_map m = shown string (object (to_fields m))

pub to_values : List Value → Values
to_values [] = stop
to_values (v ∷ vs) = item v (to_values vs)
