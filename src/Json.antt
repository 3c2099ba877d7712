-- ===== src/Json.antt =====
-- JSON values as `encoding/json` reads them into structs. The text syntax is the parameter `Codec`.
use llm_inference_operator.Base.{
  ℕ, ◌+◌, String, List, [], ◌∷◌, map, Bool, true, false, ◌&&◌, ◌≡◌, ◌≢◌, Option, none, some, leb,
  ◌==◌, if◌then◌else◌, codes,
}
use llm_inference_operator.Base.Int.{ℤ, ltb_ℤ}
use llm_inference_operator.Kube.{Error, Outcome, ok}

-- `num` is a number literal in integer syntax, `real` any other number literal.
mutual
  pub data Json : Type 0 where
    null : Json
    bool : Bool → Json
    num : ℤ → Json
    real : String → Json
    str : String → Json
    arr : Items → Json
    obj : Fields → Json

  pub data Items : Type 0 where
    nil : Items
    cons : Json → Items → Items

  pub data Fields : Type 0 where
    end : Fields
    field : String → Json → Fields → Fields

-- The text level of `json.Marshal` and `json.Unmarshal`, and the error of `Unmarshal` for a value
-- that does not fit its Go type. A byte slice that holds text is a text.
pub record Codec : Type 0 where
  pub print : Json → Outcome String
  pub parse : String → Outcome Json
  pub type_error : Error

-- What the two directions promise: a printed value is not empty, and is read back.
pub record IsCodec (codec : Codec) : Type 0 where
  pub print-ne_empty : (j : Json) (t : String) → codec.print j ≡ ok t → t ≢ ""
  pub parse-print : (j : Json) (t : String) → codec.print j ≡ ok t → codec.parse t ≡ ok j

-- `Unmarshal` prefers an exact name and accepts one that is equal under case folding: the letters of
-- ASCII, the long s and the sign for kelvin.
fold_code : ℕ → ℕ
fold_code c =
    if leb b'A' c && leb c b'Z'
    then c + 32
    else if c == 0x17f
    then b's'
    else if c == 0x212a
    then b'k'
    else c

same_codes : List ℕ → List ℕ → Bool
same_codes [] [] = true
same_codes (c ∷ cs) (d ∷ ds) = c == d && same_codes cs ds
same_codes _ _ = false

unfoldable pub field_named : String → String → Bool
unfolding fold_code same_codes
field_named tag key = same_codes (map fold_code (codes key)) (map fold_code (codes tag))

-- A value into an integer field of the given range; `null` leaves the field as it is.
unfoldable pub int_field : ℤ → ℤ → Json → ℤ → Option ℤ
int_field lo hi null old = some old
int_field lo hi (num n) old = if ltb_ℤ n lo then none else if ltb_ℤ hi n then none else some n
int_field lo hi _ old = none

-- A value into a field of type `string`.
unfoldable pub string_field : Json → String → Option String
string_field null old = some old
string_field (str s) old = some s
string_field _ old = none
