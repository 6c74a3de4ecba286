-- ===== src/Cache/Migrations/Examples.antt =====
-- A migration that fails once.
use whatsapp_mcp_docker.Base.{ℕ, String, ◌≡◌, refl, none, ◌||◌, List, [], ◌∷◌, ◌==◌}
use whatsapp_mcp_docker.Cache.Migrations.{Migration, Schema, Faults, migrate, in_versions}
use whatsapp_mcp_docker.Cache.Migrations.Runs.{no_faults, has_version, migrate_resumes}

abbrev step_of : ℕ → String → Migration
step_of version up = record { version = version; name = "step"; up = up; down = "down" }

abbrev steps : List Migration
steps = step_of 1 "a" ∷ step_of 2 "b" ∷ []

abbrev fresh_schema : Schema
fresh_schema = record { versions = []; executed = [] }

abbrev second_fails : Faults
second_fails = record no_faults { record_fails = λ v. v == 2 }

migrate_resumes_example :
    let again = migrate no_faults steps (migrate second_fails steps fresh_schema).schema in
    (again ≡ migrate no_faults steps fresh_schema)
    × (again.error ≡ none)
    × (in_versions 2 again.schema.versions
        ≡ (in_versions 2 fresh_schema.versions || has_version 2 steps))
migrate_resumes_example = migrate_resumes second_fails 2 steps fresh_schema

first_run : (migrate second_fails steps fresh_schema).schema.executed ≡ "a" ∷ []
unfolding migrate
first_run = refl
