-- ===== src/Cache/Migrations.antt =====
-- internal/cache/migrations.go: the runner of schema migrations. The schema is what was run on it and which
-- versions `_schema_version` has; a transaction keeps the schema that a rollback goes back to.
pub mod Runs
pub mod Examples
use whatsapp_mcp_docker.Base.{
  ℕ, max, String, Bool, true, false, not, Option, none, some, List, [], ◌∷◌, ◌++◌, leb, ◌==◌,
  str_eq, if◌then◌else◌, ==_iff, any,
}
use whatsapp_mcp_docker.Base.Keys.{Eq}
use whatsapp_mcp_docker.Base.Sorting.{sort}
use whatsapp_mcp_docker.Base.Texts.{trim_space}
use whatsapp_mcp_docker.Cache.Table
use whatsapp_mcp_docker.Cache.Table.{Table, find, empty}

pub record Migration : Type 0 where
  pub version : ℕ
  pub name : String
  pub up : String
  pub down : String

pub data Direction : Type 0 where
  upwards : Direction
  downwards : Direction

-- What the name of an embedded file says: `version` is missing if it is no int.
pub record FileName : Type 0 where
  pub version : Option ℕ
  pub name : String
  pub direction : Direction

-- An entry of the embedded directory: `parsed` is missing if the name does not match the pattern, `body`
-- if the file cannot be read.
pub record MigrationFile : Type 0 where
  pub is_dir : Bool
  pub parsed : Option FileName
  pub body : Option String

pub data LoadError : Type 0 where
  bad_name : LoadError
  bad_version : LoadError
  unreadable : LoadError
  mismatched_names : ℕ → LoadError
  missing_up : ℕ → LoadError
  missing_down : ℕ → LoadError

pub data Loaded {ℓ} (A : Type ℓ) : Type ℓ where
  loaded : A → Loaded A
  refused : LoadError → Loaded A

instance abbrev pub number_eq : Eq ℕ
number_eq = record { beq = ◌==◌; beq_iff = ==_iff }

abbrev with_body : Direction → String → Migration → Migration
with_body upwards body m = record m { up = body }
with_body downwards body m = record m { down = body }

abbrev Migrations : Type 0
Migrations = Table ℕ Migration

abbrev fresh : ℕ → String → Migration
fresh version name = record { version = version; name = name; up = ""; down = "" }

abbrev add_body : ℕ → FileName → String → Option Migration → Migrations → Loaded Migrations
add_body version f body none ms =
    let m = with_body f.direction body (fresh version f.name) in
    loaded (Table.upsert version m (λ _. m) ms)
add_body version f body (some m) ms =
    if str_eq m.name f.name
    then loaded (Table.upsert version m (λ _. with_body f.direction body m) ms)
    else refused (mismatched_names version)

abbrev add_version : FileName → Option ℕ → Option String → Migrations → Loaded Migrations
add_version f none body ms = refused bad_version
add_version f (some version) none ms = refused unreadable
add_version f (some version) (some body) ms = add_body version f body (find version ms) ms

abbrev add_parsed : Option FileName → Option String → Migrations → Loaded Migrations
add_parsed none body ms = refused bad_name
add_parsed (some f) body ms = add_version f f.version body ms

-- The body of the loop over the embedded files.
unfoldable pub add_file : MigrationFile → Migrations → Loaded Migrations
add_file file ms = if file.is_dir then loaded ms else add_parsed file.parsed file.body ms

abbrev pub and_then {ℓ} : {A B : Type ℓ} → Loaded A → (A → Loaded B) → Loaded B
and_then (loaded a) f = f a
and_then (refused e) f = refused e

unfoldable pub add_files : List MigrationFile → Migrations → Loaded Migrations
add_files [] ms = loaded ms
add_files (file ∷ rest) ms = and_then (add_file file ms) (add_files rest)

abbrev is_blank : String → Bool
is_blank s = str_eq (trim_space s) ""

unfoldable pub complete : List (ℕ × Migration) → Loaded (List Migration)
complete [] = loaded []
complete ((version, m) ∷ rest) =
    if is_blank m.up
    then refused (missing_up m.version)
    else if is_blank m.down
    then refused (missing_down m.version)
    else and_then (complete rest) (λ ms. loaded (m ∷ ms))

abbrev pub by_version : Migration → Migration → Bool
by_version a b = leb a.version b.version

abbrev pub by_version_down : Migration → Migration → Bool
by_version_down a b = leb b.version a.version

abbrev no_migrations : Migrations
no_migrations = empty

-- loadMigrations
unfoldable pub load_migrations : List MigrationFile → Loaded (List Migration)
unfolding add_file add_files complete
load_migrations files =
    and_then (add_files files no_migrations)
      (λ ms. and_then (complete ms.rows) (λ all'. loaded (sort by_version all')))

-- The database, as migrations change it.
pub record Schema : Type 0 where
  pub versions : List ℕ
  pub executed : List String

-- What fails, for each version: reading it, and the calls of its transaction.
pub record Faults : Type 0 where
  pub lookup_fails : ℕ → Bool
  pub begin_fails : ℕ → Bool
  pub exec_fails : ℕ → Bool
  pub record_fails : ℕ → Bool
  pub commit_fails : ℕ → Bool

pub data MigrateError : Type 0 where
  lookup_failed : ℕ → MigrateError
  apply_failed : ℕ → MigrateError

pub record Migrated : Type 0 where
  pub schema : Schema
  pub error : Option MigrateError

abbrev pub in_versions : ℕ → List ℕ → Bool
in_versions v = any (◌==◌ v)

abbrev pub without : ℕ → List ℕ → List ℕ
without v [] = []
without v (w ∷ rest) = let more = without v rest in if v == w then more else w ∷ more

-- A transaction of SQLite: the schema it began on, and the one its statements see.
pub record Tx : Type 0 where
  pub saved : Schema
  pub current : Schema

abbrev pub begin_tx : Schema → Tx
begin_tx s = record { saved = s; current = s }

-- A script that fails leaves traces in the transaction too: some of its statements may have run.
abbrev pub exec_script : String → Tx → Tx
exec_script sql tx = record tx {
  current = record tx.current { executed = tx.current.executed ++ (sql ∷ []) };
}

abbrev pub insert_version : ℕ → Tx → Tx
insert_version v tx = record tx {
  current = record tx.current { versions = tx.current.versions ++ (v ∷ []) };
}

abbrev pub delete_version : ℕ → Tx → Tx
delete_version v tx = record tx {
  current = record tx.current { versions = without v tx.current.versions };
}

abbrev pub rollback : Tx → Schema
rollback tx = tx.saved

abbrev pub commit : Tx → Schema
commit tx = tx.current

-- inTx: what is stored afterwards, and whether it succeeded. A commit that fails stores nothing.
abbrev pub in_tx : Faults → ℕ → (Tx → Tx × Bool) → Schema → Schema × Bool
in_tx faults v fn s =
    let result = fn (begin_tx s) in
    if faults.begin_fails v
    then (s, false)
    else if not result.1
    then (rollback result.0, false)
    else if faults.commit_fails v
    then (rollback result.0, false)
    else (commit result.0, true)

-- The function that applyUp, or applyDown, runs in its transaction: a script, and then what it does to the
-- table of the versions.
abbrev pub run_script : Faults → ℕ → String → (Tx → Tx) → Tx → Tx × Bool
run_script faults v sql mark tx =
    if faults.exec_fails v
    then (exec_script sql tx, false)
    else if faults.record_fails v
    then (exec_script sql tx, false)
    else (mark (exec_script sql tx), true)

abbrev pub apply_up : Faults → Migration → Schema → Schema × Bool
apply_up faults m s =
    in_tx faults m.version (run_script faults m.version m.up (insert_version m.version)) s

abbrev pub apply_down : Faults → Migration → Schema → Schema × Bool
apply_down faults m s =
    in_tx faults m.version (run_script faults m.version m.down (delete_version m.version)) s

-- The loop of Migrate over the migrations.
unfoldable pub migrate : Faults → List Migration → Schema → Migrated
migrate faults [] s = record { schema = s; error = none }
migrate faults (m ∷ rest) s =
    let skipped = migrate faults rest s in
    let result = apply_up faults m s in
    let applied = migrate faults rest result.0 in
    if faults.lookup_fails m.version
    then record { schema = s; error = some (lookup_failed m.version) }
    else if in_versions m.version s.versions
    then skipped
    else if result.1
    then applied
    else record { schema = result.0; error = some (apply_failed m.version) }

-- The loop of MigrateDown over the migrations, the latest first.
unfoldable pub revert : Faults → ℕ → List Migration → Schema → Migrated
revert faults to [] s = record { schema = s; error = none }
revert faults to (m ∷ rest) s =
    let skipped = revert faults to rest s in
    let result = apply_down faults m s in
    let reverted = revert faults to rest result.0 in
    if leb m.version to
    then record { schema = s; error = none }
    else if faults.lookup_fails m.version
    then record { schema = s; error = some (lookup_failed m.version) }
    else if in_versions m.version s.versions
    then (if result.1
        then reverted
        else record { schema = result.0; error = some (apply_failed m.version) })
    else skipped

-- MigrateDown, after the migrations were loaded
unfoldable pub migrate_down : Faults → ℕ → List Migration → Schema → Migrated
unfolding revert
migrate_down faults to ms s = revert faults to (sort by_version_down ms) s

abbrev highest : List ℕ → ℕ
highest [] = 0
highest (v ∷ rest) = max v (highest rest)

-- CurrentSchemaVersion
abbrev pub current_schema_version : Schema → ℕ
current_schema_version s = highest s.versions
