-- ===== src/Digestion/Engine/Sources.antt =====
-- core-services-sql-engine/internal/digestion/engine.go: the calls that the engine passes on.
use manju_backend.Prelude.{List}
use manju_backend.Exec.{Exec}
use manju_backend.Digestion.{Uuid, Source, Env, World}
use manju_backend.Digestion.SourceStore
use manju_backend.Digestion.SchemaStore

module _ {V : Type 0} (env : Env V) where
  unfoldable pub get_source : Uuid → Exec (World V) Source
  get_source = SourceStore.get_source env

  unfoldable pub list_sources : Exec (World V) (List Source)
  list_sources = SourceStore.list_sources env

  unfoldable pub delete_source : Uuid → Exec (World V) (Unit {0})
  delete_source = SchemaStore.delete_source env
