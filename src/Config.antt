-- ===== src/Config.antt =====
-- internal/config/resolver.go: a setting comes from its flag, else from the environment, else from
-- its default. `strconv`, `time` and `net/url` are the parsers that the resolvers take.
pub mod Precedence
use factvault.Common.{
  Bool, true, false, not, ◌&&◌, Option, none, some, List, [], ◌∷◌, ◌++◌, Text, lit, text_eq,
  if◌then◌else◌, Result, ok, err, ◌>>=◌,
}
use factvault.Strings.{trim_space}

pub record Flag : Type 0 where
  pub name : Text
  changed : Bool
  pub value : Text

pub data Error : Type 0 where
  not_set : Text → Text → Error
  invalid_flag : Text → Error
  invalid_env invalid_url unreadable_file : Text → Text → Error

-- The process's environment, and the files that can be read.
pub record System : Type 0 where
  pub lookup_env : Text → Option Text
  read_file : Text → Option Text

-- The flag's value, if the command line set it.
abbrev pub changed_value : Option Flag → Option Text
changed_value none = none
changed_value (some flag) = if flag.changed then some flag.value else none

required_err : Option Flag → Text → Error
required_err none env_var = not_set env_var []
required_err (some flag) env_var = not_set env_var flag.name

-- `if required { return requiredErr }; return defaultVal`.
abbrev default_or_err : {A : Type 0} → Option Flag → Text → A → Bool → Result Error A
default_or_err flag env_var default_val true = err (required_err flag env_var)
default_or_err flag env_var default_val false = ok default_val

pub resolve_string : System → Option Flag → Text → Text → Bool → Result Error Text
resolve_string sys flag env_var default_val required = elim (changed_value flag) [
  | some value ↦ ok value
  | none ↦ elim (sys.lookup_env env_var) [
    | some val ↦ ok val
    | none ↦ default_or_err flag env_var default_val required
  ]
]

abbrev parsed : {A : Type 0} → Option A → Error → Result Error A
parsed none e = err e
parsed (some v) e = ok v

abbrev name_of : Option Flag → Text
name_of none = []
name_of (some flag) = flag.name

-- `ResolveInt`, `ResolveBool` and `ResolveDuration`, which differ in the parser only.
resolve_parsed :
    {A : Type 0} → (Text → Option A) → System → Option Flag → Text → A → Bool → Result Error A
resolve_parsed parse sys flag env_var default_val required = elim (changed_value flag) [
  | some value ↦ parsed (parse value) (invalid_flag (name_of flag))
  | none ↦ elim (sys.lookup_env env_var) [
    | some raw ↦ parsed (parse raw) (invalid_env env_var raw)
    | none ↦ default_or_err flag env_var default_val required
  ]
]

resolve_url :
    {A : Type 0}
    → (Text → Option A)
    → System
    → Option Flag
    → Text
    → Text
    → Bool
    → Result Error (Option A)
resolve_url parse sys flag env_var default_val required = do
  raw ← resolve_string sys flag env_var default_val required
  (if text_eq raw []
      then ok none
      else elim (parse raw) [ none ↦ err (invalid_url env_var raw) | some u ↦ ok (some u) ])

-- The second component is `isAlias`.
pub resolve_string_with_alias :
    System → Option Flag → Text → Text → Text → Bool → Result Error (Text × Bool)
resolve_string_with_alias sys flag env_var alias_env_var default_val required =
    elim (changed_value flag) [
      | some value ↦ ok (value, false)
      | none ↦ elim (sys.lookup_env env_var) [
        | some val ↦ ok (val, false)
        | none ↦ elim (sys.lookup_env alias_env_var) [
          | some val ↦ ok (val, true)
          | none ↦ default_or_err flag env_var (default_val, false) required
        ]
      ]
    ]

-- The path of the secret's file, if one is named.
secret_file : System → Text → Option Text
secret_file sys env_var = elim (sys.lookup_env (env_var ++ lit "_FILE")) [
  | none ↦ none
  | some [] ↦ none
  | some (b ∷ path) ↦ some (b ∷ path)
]

resolve_secret : System → Option Flag → Text → Text → Bool → Result Error Text
resolve_secret sys flag env_var default_val required = elim (changed_value flag) [
  | some value ↦ ok value
  | none ↦ elim (secret_file sys env_var) [
    | some path ↦ elim (sys.read_file (trim_space path)) [
      | none ↦ err (unreadable_file (env_var ++ lit "_FILE") path)
      | some contents ↦ ok (trim_space contents)
    ]
    | none ↦ elim (sys.lookup_env env_var) [
      | some val ↦ ok val
      | none ↦ default_or_err flag env_var default_val required
    ]
  ]
]
