-- ===== src/Statement/Properties.antt =====
-- internal/provider/resource_flink_statement.go and internal/provider/utils.go: the properties of
-- a statement, as the list of a map's entries, and the identifier of a resource.
use terraform_provider_confl.Base.{
  Bool, Option, none, some, List, [], ◌∷◌, ◌==◌, String, str_eq, codes, starts_with, if◌then◌else◌,
}
use Prim.Native.String.{◌++◌ as str_append}
use Prim.Native.Char.{Char, code}

abbrev pub FlinkProperties : Type 0
FlinkProperties = List (String × String)

-- `strings.HasPrefix(name, "sql.secrets")`
abbrev pub is_sensitive_setting : String → Bool
is_sensitive_setting name = starts_with (codes name) (codes "sql.secrets")

unfoldable pub extract_nonsensitive_properties : FlinkProperties → FlinkProperties
extract_nonsensitive_properties [] = []
extract_nonsensitive_properties ((name, value) ∷ properties) =
    let rest = extract_nonsensitive_properties properties in
    if is_sensitive_setting name then rest else (name, value) ∷ rest

-- An entry takes the place of the one under its name.
abbrev pub put_property : String → String → FlinkProperties → FlinkProperties
put_property name value [] = (name, value) ∷ []
put_property name value ((n, v) ∷ properties) =
    if str_eq n name
    then (name, value) ∷ properties
    else (n, v) ∷ put_property name value properties

-- `lo.Assign`: the entries of the second map win.
abbrev pub assign : FlinkProperties → FlinkProperties → FlinkProperties
assign properties [] = properties
assign properties ((name, value) ∷ others) = assign (put_property name value properties) others

-- The merged, the sensitive and the other properties.
unfoldable pub extract_flink_properties :
    (sensitive nonsensitive : FlinkProperties) → FlinkProperties × FlinkProperties × FlinkProperties
extract_flink_properties sensitive nonsensitive =
    (assign nonsensitive sensitive, sensitive, nonsensitive)

-- `fmt.Sprintf("%s/%s/%s", ...)`
unfoldable pub create_flink_statement_id : String → String → String → String
create_flink_statement_id environment_id compute_pool_id statement_name =
    str_append environment_id
      (str_append "/" (str_append compute_pool_id (str_append "/" statement_name)))

abbrev prepend_char : Char → List String → List String
prepend_char c [] = String.◌∷◌ c String.[] ∷ []
prepend_char c (s ∷ parts) = String.◌∷◌ c s ∷ parts

-- `strings.Split(s, "/")`
unfoldable pub split_slash : String → List String
split_slash String.[] = String.[] ∷ []
split_slash (String.◌∷◌ c s) =
    let rest = split_slash s in if code c == 47 then String.[] ∷ rest else prepend_char c rest

abbrev third_of_three : List String → Option String
third_of_three (environment_id ∷ compute_pool_id ∷ statement_name ∷ []) = some statement_name
third_of_three _ = none

-- None is the error of the format.
unfoldable pub parse_statement_name : String → Option String
unfolding split_slash
parse_statement_name id = third_of_three (split_slash id)
