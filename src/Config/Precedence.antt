-- ===== src/Config/Precedence.antt =====
-- Which of its sources a setting comes from.
use factvault.Common.{
  ◌≡◌, ◌≢◌, ◌↔◌, ◌⊎◌, Bool, true, false, Option, none, some, arith, Text, ok, ◌>>=◌,
}
use factvault.Config.{Flag, System, changed_value, resolve_string, resolve_string_with_alias}

-- Nothing that the resolver reads sets the value.
abbrev IsUnset : System → Option Flag → Text → Type 0
IsUnset sys flag env_var = (changed_value flag ≡ none) × (sys.lookup_env env_var ≡ none)

-- `ResolveStringWithAlias` answers the alias, and says so, exactly if neither the flag nor the
-- variable is set and the alias is. In all other cases it answers as `ResolveString` does.
resolve_string_with_alias_iff :
    (sys : System) (flag : Option Flag) (env_var alias_env_var default_val val : Text)
    (required : Bool)
    → ((resolve_string_with_alias sys flag env_var alias_env_var default_val required
          ≡ ok (val, true))
        ↔ (IsUnset sys flag env_var × (sys.lookup_env alias_env_var ≡ some val)))
      × ((resolve_string_with_alias sys flag env_var alias_env_var default_val required
            ≡ (resolve_string sys flag env_var default_val required >>= λ s. ok (s, false)))
          ⊎ (IsUnset sys flag env_var × (sys.lookup_env alias_env_var ≢ none)))
unfolding resolve_string_with_alias resolve_string
resolve_string_with_alias_iff sys flag env_var alias_env_var default_val val required = ground arith
