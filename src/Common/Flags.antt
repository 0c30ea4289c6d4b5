-- ===== src/Common/Flags.antt =====
-- The part of the package flag that config.go uses: `FlagSet.Parse` on flags that are a text or a
-- boolean, `Visit`, and `strconv.ParseBool`.
use gomc_rest.Common.{
  Bool, true, false, ◌||◌, not, Option, none, some, List, [], ◌∷◌, ◌==◌, if◌then◌else◌, Result, ok,
  err,
}
use gomc_rest.Common.Text.{Text, codes, text_eq}

pub data FlagKind : Type 0 where
  text_flag bool_flag : FlagKind

-- The errors of `Parse`; `help` is `flag.ErrHelp`.
pub data FlagError : Type 0 where
  help : FlagError
  bad_syntax undefined needs_argument : Text → FlagError
  invalid_boolean : (value name : Text) → FlagError

-- The values that were set, the latest first.
abbrev pub Given : Type 0
Given = List (Text × Text)

one_of_texts : List Text → Text → Bool
one_of_texts [] s = false
one_of_texts (t ∷ ts) s = text_eq s t || one_of_texts ts s

-- `strconv.ParseBool`
unfoldable pub parse_bool : Text → Option Bool
unfolding one_of_texts
parse_bool s =
    if one_of_texts
      (codes "1" ∷ codes "t" ∷ codes "T" ∷ codes "TRUE" ∷ codes "true" ∷ codes "True" ∷ []) s
    then some true
    else if one_of_texts
        (codes "0" ∷ codes "f" ∷ codes "F" ∷ codes "FALSE" ∷ codes "false" ∷ codes "False" ∷ []) s
    then some false
    else none

-- What an argument is, by its look: `other` ends the flags, and so does `--`.
pub data Argument : Type 0 where
  other terminator bad : Argument
  flag : (name : Text) (value : Option Text) → Argument

-- The name, up to an equals sign that is not its first byte, and the value behind it.
unfoldable pub cut_value : Text → Text × Option Text
cut_value [] = ([], none)
cut_value (c ∷ s) =
    let (name, value) = cut_value s in if c == b'=' then ([], some s) else (c ∷ name, value)

unfoldable pub named : Text → Argument
unfolding cut_value
named [] = bad
named (c ∷ s) =
    let (name, value) = cut_value s in if c == b'-' || c == b'=' then bad else flag (c ∷ name) value

unfoldable pub classify : Text → Argument
unfolding named
classify [] = other
classify (c ∷ []) = other
classify (c ∷ d ∷ s) =
    if not (c == b'-')
    then other
    else if not (d == b'-')
    then named (d ∷ s)
    else elim s [ [] ↦ terminator | x ∷ t ↦ named (x ∷ t) ]

abbrev set_flag : Text → Text → Given → Given
set_flag name value given = (name, value) ∷ given

-- A boolean flag, with `true` for no value.
abbrev set_bool : Text → Text → Given → Result FlagError Given
set_bool name value given = elim (parse_bool value) [
  | none ↦ err (invalid_boolean value name)
  | some b ↦ ok (set_flag name value given)
]

or_true : Option Text → Text
or_true none = codes "true"
or_true (some value) = value

undeclared : Text → FlagError
undeclared name =
    if text_eq name (codes "help") || text_eq name (codes "h") then help else undefined name

module _ (kind_of : Text → Option FlagKind) where
  -- `Parse`, argument by argument. What stands behind the flags is not looked at.
  unfoldable pub parse_args : List Text → Given → Result FlagError Given
  unfolding or_true undeclared
  parse_args [] given = ok given
  parse_args (s ∷ []) given = elim (classify s) [
    | other ↦ ok given
    | terminator ↦ ok given
    | bad ↦ err (bad_syntax s)
    | flag name value ↦ elim (kind_of name) [
      | none ↦ err (undeclared name)
      | some bool_flag ↦ set_bool name (or_true value) given
      | some text_flag ↦ elim value [
        | none ↦ err (needs_argument name)
        | some v ↦ ok (set_flag name v given)
      ]
    ]
  ]
  parse_args (s ∷ next ∷ rest) given = elim (classify s) [
    | other ↦ ok given
    | terminator ↦ ok given
    | bad ↦ err (bad_syntax s)
    | flag name value ↦ elim (kind_of name) [
      | none ↦ err (undeclared name)
      | some bool_flag ↦ elim (set_bool name (or_true value) given) [
        | err e ↦ err e
        | ok given' ↦ parse_args (next ∷ rest) given'
      ]
      | some text_flag ↦ elim value [
        | none ↦ parse_args rest (set_flag name next given)
        | some v ↦ parse_args (next ∷ rest) (set_flag name v given)
      ]
    ]
  ]

-- The value of a flag that was set; `none` is a flag that `Visit` does not visit.
unfoldable pub last_given : Text → Given → Option Text
last_given name [] = none
last_given name ((k, v) ∷ given) = if text_eq k name then some v else last_given name given
