-- ===== src/Process/Migrations.antt =====
-- Run of internal/migrations/migrations.go; golang-migrate is outside.
use vibls_assignment.Common.{String, Bool, true, false, Option, none, some, List, [], ◌∷◌}
use vibls_assignment.Common.Text.{Bytes, cat}
use vibls_assignment.Process.Effects.{migration, Effect, opened}

-- What golang-migrate answers on the embedded files and the database of an address.
pub data Up : Type 0 where
  applied no_change : Up
  up_failed : String → Up

pub record Migrator : Type 0 where
  pub source_error : Option String
  pub instance_error : Bytes → Option String
  pub up : Bytes → Up

abbrev pub up_error : Up → Option String
up_error applied = none
up_error no_change = none
up_error (up_failed e) = some (cat "run migrations: " e)

-- What Run opens, and its error if it has one. The instance stays open, also if Up fails.
unfoldable pub run_migrations : Migrator → Bytes → List Effect × Option String
run_migrations m url = elim m.source_error [
  | some e ↦ ([], some (cat "create iofs source: " e))
  | none ↦ elim (m.instance_error url) [
    | some e ↦ ([], some (cat "create migrate instance: " e))
    | none ↦ (opened migration ∷ [], up_error (m.up url))
  ]
]

abbrev pub no_error : Option String → Bool
no_error none = true
no_error (some e) = false

abbrev pub migrates : Migrator → Bytes → Bool
migrates m url = no_error (run_migrations m url).1
