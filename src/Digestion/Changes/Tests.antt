-- ===== src/Digestion/Changes/Tests.antt =====
-- The changed columns of a person with another name.
use manju_backend.Prelude.{◌≡◌, refl, not, some, if◌then◌else◌}
use manju_backend.Digestion.Tests.{quiet, person}
use manju_backend.Digestion.Changes.{value_or, has_column, json_equal, decoded, changed_columns}
use manju_backend.Digestion.Changes.Columns.{lists, IsMap, lists-changed_columns}

lists-changed_columns_example :
    lists "name" (changed_columns quiet (some (person "1" "Ann")) (person "1" "Anna")) ≡ (
      if has_column "name" (decoded quiet (some (person "1" "Ann")))
      then not (
          json_equal quiet
            (value_or "" "name" (decoded quiet (some (person "1" "Ann"))))
            (value_or "" "name" (decoded quiet (some (person "1" "Anna")))))
      else has_column "name" (decoded quiet (some (person "1" "Anna"))))
lists-changed_columns_example =
    lists-changed_columns quiet "name" (some (person "1" "Ann")) (person "1" "Anna")
      (unfold decoded IsMap has_column in (refl, (refl, tt)))
