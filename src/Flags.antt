-- ===== src/Flags.antt =====
-- The standard library's `flag` package, as far as the binaries use it: `flag.Parse` on a set of
-- flags that write into a struct of options, with the exit codes of `flag.ExitOnError`.
pub mod Keeps
use Prim.Native.Char.{code}
use llm_inference_operator.Base.{
  ◌≡◌, refl, ℕ, String, Bool, true, false, ◌||◌, List, [], ◌∷◌, Option, none, some, if◌then◌else◌,
  text_eq, ◌==◌,
}

-- A flag: its name, whether it takes no argument, and how a value is written.
pub record Flag (O : Type 0) : Type 0 where
  pub name : String
  pub is_bool : Bool
  pub set : String → O → Option O

-- What a run that may end early gives: a value, or an exit code.
pub data Exit (O : Type 0) : Type 0 where
  go_on : O → Exit O
  exit : ℕ → Exit O

-- An argument: not a flag, `--`, a flag that is written wrongly, or a flag with the value after `=`.
pub data Token : Type 0 where
  plain : Token
  terminator : Token
  malformed : Token
  named : String → Option String → Token

-- The text before the first `=`, and the text after it.
split_value : String → String × Option String
split_value String.[] = ("", none)
split_value (String.◌∷◌ c s) =
    let (name, value) = split_value s in
    if code c == 61 then ("", some s) else (String.◌∷◌ c name, value)

name_of : String → Token
unfolding split_value
name_of String.[] = malformed
name_of (String.◌∷◌ c s) =
    let (name, value) = split_value s in
    if code c == 45 || code c == 61 then malformed else named (String.◌∷◌ c name) value

after_dashes : String → Token
unfolding name_of
after_dashes String.[] = terminator
after_dashes (String.◌∷◌ c s) = name_of (String.◌∷◌ c s)

unfoldable pub classify : String → Token
unfolding name_of after_dashes
classify String.[] = plain
classify (String.◌∷◌ c String.[]) = plain
classify (String.◌∷◌ c (String.◌∷◌ d s)) =
    if code c == 45
    then if code d == 45 then after_dashes s else name_of (String.◌∷◌ d s)
    else plain

-- `strconv.ParseBool`
unfoldable pub parse_bool : String → Option Bool
parse_bool s =
    if is_one_of s ("1" ∷ "t" ∷ "T" ∷ "true" ∷ "TRUE" ∷ "True" ∷ [])
    then some true
    else if is_one_of s ("0" ∷ "f" ∷ "F" ∷ "false" ∷ "FALSE" ∷ "False" ∷ [])
    then some false
    else none
  where
    is_one_of : String → List String → Bool
    is_one_of s [] = false
    is_one_of s (t ∷ ts) = text_eq s t || is_one_of s ts

module _ {O : Type 0} where
  -- `flag.StringVar`, with the field written by `write`.
  abbrev pub string_var : String → (String → O → O) → Flag O
  string_var name write = record { name = name; is_bool = false; set = λ v o. some (write v o) }

  abbrev pub write_bool : (Bool → O → O) → O → Option Bool → Option O
  write_bool write o none = none
  write_bool write o (some b) = some (write b o)

  -- `flag.BoolVar`
  unfoldable pub bool_var : String → (Bool → O → O) → Flag O
  unfolding parse_bool
  bool_var name write = record {
    name = name;
    is_bool = true;
    set = λ v o. write_bool write o (parse_bool v);
  }

  abbrev pub find_flag : String → List (Flag O) → Option (Flag O)
  find_flag name [] = none
  find_flag name (f ∷ fs) = if text_eq f.name name then some f else find_flag name fs

  -- A value that does not fit is reported, and the program ends with 2.
  abbrev pub proceed : Option O → (O → Exit O) → Exit O
  proceed none rest = exit 2
  proceed (some o) rest = rest o

  -- A flag that is not there: asking for help ends with 0, anything else with 2.
  abbrev pub undefined : String → Exit O
  undefined name = if text_eq name "help" || text_eq name "h" then exit 0 else exit 2

  -- With the value that stands after `=`, or without one.
  abbrev pub with_flag : Flag O → Option String → O → (O → Exit O) → Exit O → Exit O
  with_flag f (some value) o rest wait = proceed (f.set value o) rest
  with_flag f none o rest wait = if f.is_bool then proceed (f.set "true" o) rest else wait

  abbrev pub on_flag :
      String → Option (Flag O) → Option String → O → (O → Exit O) → (Flag O → Exit O) → Exit O
  on_flag name none value o rest wait = undefined name
  on_flag name (some f) value o rest wait = with_flag f value o rest (wait f)

  abbrev pub on_token : List (Flag O) → Token → O → (O → Exit O) → (Flag O → Exit O) → Exit O
  on_token flags plain o rest wait = go_on o
  on_token flags terminator o rest wait = go_on o
  on_token flags malformed o rest wait = exit 2
  on_token flags (named name value) o rest wait =
      on_flag name (find_flag name flags) value o rest wait

  -- The arguments in order; a flag that waits for its value takes the next argument.
  unfoldable pub parse_from : List (Flag O) → Option (Flag O) → List String → O → Exit O
  unfolding classify
  parse_from flags none [] o = go_on o
  parse_from flags (some f) [] o = exit 2
  parse_from flags (some f) (v ∷ rest) o = proceed (f.set v o) (parse_from flags none rest)
  parse_from flags none (s ∷ rest) o =
      on_token flags (classify s) o (parse_from flags none rest)
        (λ f. parse_from flags (some f) rest o)

  -- `flag.Parse()`
  unfoldable pub parse_flags : List (Flag O) → List String → O → Exit O
  unfolding parse_from
  parse_flags flags args o = parse_from flags none args o

module _ {A B : Type 0} where
  abbrev pub set_first : B → Option A → Option (A × B)
  set_first b none = none
  set_first b (some a) = some (a, b)

  abbrev pub set_second : A → Option B → Option (A × B)
  set_second a none = none
  set_second a (some b) = some (a, b)

  -- A flag next to others that write elsewhere.
  abbrev pub own_flag : Flag A → Flag (A × B)
  own_flag f = record {
    name = f.name;
    is_bool = f.is_bool;
    set = λ v (a, b). set_first b (f.set v a);
  }

  abbrev pub library_flag : Flag B → Flag (A × B)
  library_flag f = record {
    name = f.name;
    is_bool = f.is_bool;
    set = λ v (a, b). set_second a (f.set v b);
  }

-- A run goes on where the one before it did.
abbrev pub then_run : {A B : Type 0} → Exit A → (A → Exit B) → Exit B
then_run (go_on a) f = f a
then_run (exit n) f = exit n

parse_test :
    parse_flags
      (string_var "name" (λ v (o : String × Bool). (v, o.1)) ∷ bool_var "on" (λ b o. (o.0, b)) ∷ [])
      ("-on" ∷ "--name=x=y" ∷ "-on=F" ∷ "--name" ∷ "-z" ∷ "rest" ∷ [])
      ("", false)
    ≡ go_on ("-z", false)
unfolding parse_flags bool_var
parse_test = refl

help_test : parse_flags {O = Bool} [] ("-h" ∷ []) true ≡ exit 0
unfolding parse_flags
help_test = refl
