-- ===== src/LoadMode.antt =====
-- The load modes of src/connector.rs, and the check that a destination supports one.
use Prim.Native.String.{◌++◌}
use data_spark.Prelude.{
  String, Bool, true, false, ◌||◌, List, [], ◌∷◌, map, ◌≡◌, refl, ◌⊎◌, ◌↔◌, arith, str_eq, eq_iff,
  inl, inr, if◌then◌else◌,
}
use data_spark.Prelude.Text.{join}
use data_spark.Prelude.Outcome.{Result, ok, err}
use data_spark.Failure.{LoadFailure}

pub data LoadMode : Type 0 where
  full_refresh append merge : LoadMode

unfoldable pub as_str : LoadMode → String
as_str full_refresh = "full_refresh"
as_str append = "append"
as_str merge = "merge"

unfoldable pub parse : String → Result LoadFailure LoadMode
parse load_mode =
    if str_eq load_mode "full_refresh"
    then ok full_refresh
    else if str_eq load_mode "append"
    then ok append
    else if str_eq load_mode "merge"
    then ok merge
    else err (record {
      code = "unsupported_load_mode";
      message = "unsupported load mode: " ++ load_mode;
    })

-- `==` of the derived `PartialEq`
abbrev pub same_mode : LoadMode → LoadMode → Bool
same_mode full_refresh full_refresh = true
same_mode append append = true
same_mode merge merge = true
same_mode _ _ = false

abbrev pub contains : LoadMode → List LoadMode → Bool
contains mode [] = false
contains mode (m ∷ modes) = same_mode m mode || contains mode modes

-- The mode stands in the list.
abbrev pub Listed : LoadMode → List LoadMode → Type 0
Listed mode [] = ⊥
Listed mode (m ∷ modes) = (m ≡ mode) ⊎ Listed mode modes

-- `FULL_REFRESH_AND_APPEND_LOAD_MODES`, `ALL_LOAD_MODES`
abbrev pub full_refresh_and_append : List LoadMode
full_refresh_and_append = full_refresh ∷ append ∷ []

abbrev pub all_load_modes : List LoadMode
all_load_modes = full_refresh ∷ append ∷ merge ∷ []

-- `Destination::validate_mode`, for a destination of this name and these modes.
unfoldable pub validate_mode : String → List LoadMode → LoadMode → Result LoadFailure (Unit {0})
unfolding as_str join
validate_mode connector_name supported_load_modes mode =
    let supported = join ", " (map as_str supported_load_modes) in
    let supported_clause =
      if str_eq supported ""
      then "no load modes are supported for this destination yet"
      else "supported load modes: " ++ supported in
    if contains mode supported_load_modes
    then ok tt
    else err (record {
      code = "unsupported_load_mode_for_destination";
      message =
          connector_name
          ++ " destination does not support load mode: "
          ++ as_str mode
          ++ " ("
          ++ supported_clause
          ++ ")";
    })

parse-as_str : (mode : LoadMode) → parse (as_str mode) ≡ ok mode
unfolding parse as_str
parse-as_str full_refresh = refl
parse-as_str append = refl
parse-as_str merge = refl

as_str-parse : (text : String) (mode : LoadMode) → parse text ≡ ok mode → text ≡ as_str mode
unfolding parse as_str
as_str-parse text mode h =
    ground (arith, eq_iff text "full_refresh", eq_iff text "append", eq_iff text "merge")

-- The spelling of a mode parses to that mode, and no other text parses to it.
parse_iff : (text : String) (mode : LoadMode) → (parse text ≡ ok mode) ↔ (text ≡ as_str mode)
parse_iff text mode = (as_str-parse text mode, λ e. rw e (parse-as_str mode))

contains_iff :
    (mode : LoadMode) (modes : List LoadMode) → (contains mode modes ≡ true) ↔ Listed mode modes
contains_iff mode [] = ground arith
contains_iff mode (m ∷ modes) = ground (arith, contains_iff mode modes)

refused_or_ok :
    (b : Bool) (failure : LoadFailure)
    → failure.code ≡ "unsupported_load_mode_for_destination"
    → ((if b then ok tt else err failure) ≡ ok tt)
      ⊎ ((f : LoadFailure) × ((if b then ok tt else err failure) ≡ err f)
          × (f.code ≡ "unsupported_load_mode_for_destination"))
refused_or_ok true failure h = inl refl
refused_or_ok false failure h = inr (failure, refl, h)

-- A destination accepts exactly the modes that it lists; any other fails as
-- `unsupported_load_mode_for_destination`.
pub validate_mode_lem :
    (connector_name : String) (modes : List LoadMode) (mode : LoadMode)
    → ((validate_mode connector_name modes mode ≡ ok tt) ↔ Listed mode modes)
      × ((validate_mode connector_name modes mode ≡ ok tt)
          ⊎ ((f : LoadFailure) × (validate_mode connector_name modes mode ≡ err f)
              × (f.code ≡ "unsupported_load_mode_for_destination")))
unfolding validate_mode
validate_mode_lem connector_name modes mode =
    (ground (arith, contains_iff mode modes), refused_or_ok (contains mode modes) _ refl)
