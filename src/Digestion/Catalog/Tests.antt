-- ===== src/Digestion/Catalog/Tests.antt =====
-- A read of the data of a small table.
use manju_backend.Prelude.{◌≡◌, refl, String, List, [], ◌∷◌, map, pos}
use manju_backend.Digestion.{Row, IngestedRow}
use manju_backend.Digestion.RowStore.{page, query_rows, reload}
use manju_backend.Digestion.Tests.{quiet, before, person}
use manju_backend.Digestion.Catalog.{get_data, IsShown, get_data-IsPageOf}
use manju_backend.Table.Selected.{IsPageOf}

abbrev people : List (Row String)
people = person "1" "Ann" ∷ person "2" "Bob" ∷ []

get_data-IsPageOf_example :
    ((get_data quiet 3 (pos 5000) (pos 0) before).1.rows ≡ before.rows)
    × ((rows : List (IngestedRow String)) × (◌≡◌ {A = List (Row String)} people
          (map (λ row. reload quiet row.contents) rows))
        × IsPageOf (IsShown 3) (λ row. row.ingested_at) before.rows 0 100 rows)
get_data-IsPageOf_example =
    get_data-IsPageOf quiet 3 (pos 5000) (pos 0) before people
      (unfold get_data query_rows page in refl)
