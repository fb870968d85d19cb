-- ===== src/Digestion/SchemaStore/Tests.antt =====
-- A table that is discovered again with another primary key.
use manju_backend.Prelude.{◌≡◌, refl, ◌∷◌, []}
use manju_backend.Exec.{ok}
use manju_backend.Digestion.{DiscoveredTable}
use manju_backend.Digestion.Tests.{quiet, before, people}
use manju_backend.Digestion.SchemaStore.{upsert_table, table_by_name}
use manju_backend.Digestion.SchemaStore.Rediscovery.{IsRediscovered, table_by_name-upsert_table}

abbrev again : DiscoveredTable
again = record people { id = 0; primary_key_columns = "id" ∷ "name" ∷ [] }

table_by_name-upsert_table_example :
    (3 ≡ people.id)
    × ((new : DiscoveredTable) × ((table_by_name quiet 1 "public" "people"
            (upsert_table quiet again before).1).0
          ≡ ok new)
        × IsRediscovered quiet people again new)
table_by_name-upsert_table_example =
    table_by_name-upsert_table quiet again people 3 before refl (unfold upsert_table in refl) refl
