-- ===== src/Generation/Tables/Verdict.antt =====
-- The theorem on `validate_tables_used`.
use nl2sqlcopy.Dict
use nl2sqlcopy.Dict.{Dict}
use nl2sqlcopy.Text.{Text, text_eq}
