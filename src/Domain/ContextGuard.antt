-- ===== src/Domain/ContextGuard.antt =====
-- `ContextGuard` of domain/context_guard.py, over the input guard that it is constructed with: only
-- the result of `validate_input` reaches it.
use kelvin_assistant.Prelude.{
  Bool, true, false, List, [], ◌∷◌, ◌++◌, Text, codes, not, if◌then◌else◌,
}
use kelvin_assistant.Prelude.Search.{replace}

-- `InputValidationResult` of domain/input_guard.py
pub record InputValidationResult : Type 0 where
  pub is_safe : Bool
  pub warnings : List Text

-- `InputGuard.validate_input`
abbrev pub InputGuard : Type 0
InputGuard = Text → InputValidationResult

pub record GuardedContent : Type 0 where
  pub text : Text
  pub is_safe : Bool
  pub warnings : List Text

abbrev pub begin_delimiter : Text
begin_delimiter = codes "--- BEGIN EXTERNAL DATA ---"

abbrev pub end_delimiter : Text
end_delimiter = codes "--- END EXTERNAL DATA ---"

abbrev pub line_feed : Text
line_feed = b'\n' ∷ []

unfoldable pub escape_delimiters : Text → Text
unfolding replace
escape_delimiters text =
    replace (replace text begin_delimiter (codes "--- BEGIN ESCAPED DATA ---")) end_delimiter
      (codes "--- END ESCAPED DATA ---")

-- A text between the delimiters of external data.
abbrev pub delimited : Text → Text
delimited text =
    line_feed
    ++ begin_delimiter
    ++ line_feed
    ++ escape_delimiters text
    ++ line_feed
    ++ end_delimiter
    ++ line_feed

-- `wrap`; `source` is only in the warning.
unfoldable pub wrap : InputGuard → Text → (source : Text) → GuardedContent
wrap validate_input text source =
    let checked = validate_input text in
    if not checked.is_safe
    then record {
      text = [];
      is_safe = false;
      warnings =
          (codes "Input from source '"
            ++ source
            ++ codes "' blocked due to potential injection attacks.")
          ∷ checked.warnings;
    }
    else record {
      text =
          line_feed
          ++ begin_delimiter
          ++ line_feed
          ++ escape_delimiters text
          ++ line_feed
          ++ end_delimiter
          ++ line_feed;
      is_safe = true;
      warnings = checked.warnings;
    }
