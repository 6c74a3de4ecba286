-- ===== src/Cache/Migrations/Runs.antt =====
-- internal/cache/migrations.go: runs that fail and are started again, and what a rollback leaves.
use whatsapp_mcp_docker.Base.{
  ℕ, ◌≡◌, refl, ap, ◌∙◌, ◌⊎◌, inl, inr, Bool, true, false, not, ◌&&◌, ◌||◌, none, List, [], ◌∷◌,
  ◌++◌, arith, leb, ◌==◌, if◌then◌else◌, ==_iff, Bool-cases, any, All,
}
use whatsapp_mcp_docker.Base.Sorting.{sort, insert_sorted, IsSorted, sort-IsSorted}
use whatsapp_mcp_docker.Cache.Migrations.{
  Migration, Schema, Faults, in_versions, apply_up, without, migrate, revert, migrate_down,
  by_version_down,
}

-- Nothing fails.
abbrev pub no_faults : Faults
no_faults = record {
  lookup_fails = λ v. false;
  begin_fails = λ v. false;
  exec_fails = λ v. false;
  record_fails = λ v. false;
  commit_fails = λ v. false;
}

-- The schema after a migration was applied, and after it was reverted.
abbrev after_up : Migration → Schema → Schema
after_up m s = record {
  versions = s.versions ++ (m.version ∷ []);
  executed = s.executed ++ (m.up ∷ []);
}

abbrev after_down : Migration → Schema → Schema
after_down m s = record {
  versions = without m.version s.versions;
  executed = s.executed ++ (m.down ∷ []);
}

-- A transaction takes effect as a whole or leaves the schema as it was, wherever it fails.
apply_up-cases :
    (faults : Faults) (m : Migration) (s : Schema)
    → (apply_up faults m s ≡ (s, false)) ⊎ (apply_up faults m s ≡ (after_up m s, true))
apply_up-cases faults m s = elim (Bool-cases (faults.begin_fails m.version)) [
  | inl b ↦ rw b (inl refl)
  | inr b ↦ elim (Bool-cases (faults.exec_fails m.version)) [
    | inl e ↦ rw (b, e) (inl refl)
    | inr e ↦ elim (Bool-cases (faults.record_fails m.version)) [
      | inl r ↦ rw (b, e, r) (inl refl)
      | inr r ↦ elim (Bool-cases (faults.commit_fails m.version)) [
        | inl c ↦ rw (b, e, r, c) (inl refl)
        | inr c ↦ rw (b, e, r, c) (inr refl)
      ]
    ]
  ]
]

in_versions-append :
    (v : ℕ) (xs ys : List ℕ) → in_versions v (xs ++ ys) ≡ (in_versions v xs || in_versions v ys)
in_versions-append v [] ys = refl
in_versions-append v (x ∷ xs) ys = ground (arith, in_versions-append v xs ys)

applied_now : (m : Migration) (s : Schema) → in_versions m.version (after_up m s).versions ≡ true
applied_now m s = ground (arith, in_versions-append m.version s.versions (m.version ∷ []))

applied_before :
    (v : ℕ) (m : Migration) (s : Schema)
    → in_versions v s.versions ≡ true
    → in_versions v (after_up m s).versions ≡ true
applied_before v m s h = ground (arith, in_versions-append v s.versions (m.version ∷ []))

-- No run of Migrate forgets a version.
pub migrate_keeps :
    (faults : Faults) (v : ℕ) (ms : List Migration) (s : Schema)
    → in_versions v s.versions ≡ true
    → in_versions v (migrate faults ms s).schema.versions ≡ true
unfolding migrate
migrate_keeps faults v [] s h = h
migrate_keeps faults v (m ∷ rest) s h =
    let skipped = migrate_keeps faults v rest s h in
    let applied = migrate_keeps faults v rest (after_up m s) (applied_before v m s h) in
    elim (Bool-cases (faults.lookup_fails m.version)) [
      | inl e ↦ rw e h
      | inr e ↦ elim (Bool-cases (in_versions m.version s.versions)) [
        | inl k ↦ rw (e, k) skipped
        | inr k ↦ elim (apply_up-cases faults m s) [
          | inl f ↦ rw (e, k, f) h
          | inr f ↦ rw (e, k, f) applied
        ]
      ]
    ]

migrate_skips :
    (m : Migration) (rest : List Migration) (s : Schema)
    → in_versions m.version s.versions ≡ true
    → migrate no_faults (m ∷ rest) s ≡ migrate no_faults rest s
unfolding migrate
migrate_skips m rest s h = rw h refl

migrate_applies :
    (m : Migration) (rest : List Migration) (s : Schema)
    → in_versions m.version s.versions ≡ false
    → migrate no_faults (m ∷ rest) s ≡ migrate no_faults rest (after_up m s)
unfolding migrate
migrate_applies m rest s h = rw h refl

-- A second run ends where a run with nothing failing ends.
migrate-migrate :
    (faults : Faults) (ms : List Migration) (s : Schema)
    → migrate no_faults ms (migrate faults ms s).schema ≡ migrate no_faults ms s
unfolding migrate
migrate-migrate faults [] s = refl
migrate-migrate faults (m ∷ rest) s =
    let skipped = migrate-migrate faults rest s in
    let applied = migrate-migrate faults rest (after_up m s) in
    elim (Bool-cases (faults.lookup_fails m.version)) [
      | inl e ↦ rw e refl
      | inr e ↦ elim (Bool-cases (in_versions m.version s.versions)) [
        | inl k ↦ let there = migrate_keeps faults m.version rest s k in rw (e, k, there) skipped
        | inr k ↦ elim (apply_up-cases faults m s) [
          | inl f ↦ rw (e, k, f, k) refl
          | inr f ↦
              let there = migrate_keeps faults m.version rest (after_up m s) (applied_now m s) in
              rw (e, k, f, there) applied
        ]
      ]
    ]

-- A migration of the version is among them.
abbrev pub has_version : ℕ → List Migration → Bool
has_version v = any (λ m. m.version == v)

-- With nothing failing Migrate ends without an error, and afterwards a version is applied exactly if it was
-- before or a migration has it.
pub migrate_completes :
    (v : ℕ) (ms : List Migration) (s : Schema)
    → ((migrate no_faults ms s).error ≡ none)
      × (in_versions v (migrate no_faults ms s).schema.versions
          ≡ (in_versions v s.versions || has_version v ms))
unfolding migrate
migrate_completes v [] s = (refl, ground arith)
migrate_completes v (m ∷ rest) s = elim (Bool-cases (in_versions m.version s.versions)) [
  | inl k ↦
      let (good, there) = migrate_completes v rest s in
      rw (migrate_skips m rest s k) (good, ground (arith, ==_iff v m.version))
  | inr k ↦
      let (good, there) = migrate_completes v rest (after_up m s) in
      rw (migrate_applies m rest s k)
        (good, ground (arith, in_versions-append v s.versions (m.version ∷ [])))
]

-- A run of Migrate in which any reading of a version, or the begin, the script, the record of the version
-- or the commit of any transaction fails, started again with nothing failing, ends as one run with
-- nothing failing does: without an error, and a version is then recorded exactly if it was before or a
-- migration has it.
pub migrate_resumes :
    (faults : Faults) (v : ℕ) (ms : List Migration) (s : Schema)
    → let again = migrate no_faults ms (migrate faults ms s).schema in
      (again ≡ migrate no_faults ms s)
      × (again.error ≡ none)
      × (in_versions v again.schema.versions ≡ (in_versions v s.versions || has_version v ms))
migrate_resumes faults v ms s =
    let same = migrate-migrate faults ms s in
    let (good, recorded) = migrate_completes v ms s in
    (same, ap (λ r. r.error) same ∙ good, ap (λ r. in_versions v r.schema.versions) same ∙ recorded)

in_versions-without :
    (v w : ℕ) (xs : List ℕ) → in_versions w (without v xs) ≡ (in_versions w xs && not (v == w))
in_versions-without v w [] = refl
in_versions-without v w (x ∷ xs) = elim (Bool-cases (v == x)) [
  | inl e ↦ rw e (ground (arith, in_versions-without v w xs, ==_iff v x))
  | inr e ↦ rw e (ground (arith, in_versions-without v w xs))
]

-- What is left of a version.
abbrev stays : ℕ → ℕ → List Migration → Bool
stays w to ms = leb w to || not (has_version w ms)

later_done :
    (w to : ℕ) (m : Migration) (rest : List Migration)
    → leb m.version to ≡ true
    → All (λ y. by_version_down m y ≡ true) rest
    → stays w to rest ≡ true
later_done w to m [] h a = ground arith
later_done w to m (y ∷ rest) h (first, others) =
    let more = later_done w to m rest h others in ground arith

revert_lem :
    (w to : ℕ) (ms : List Migration) (s : Schema)
    → IsSorted by_version_down ms
    → ((revert no_faults to ms s).error ≡ none)
      × (in_versions w (revert no_faults to ms s).schema.versions
          ≡ (in_versions w s.versions && stays w to ms))
unfolding revert
revert_lem w to [] s order = (refl, ground arith)
revert_lem w to (m ∷ rest) s (first, order) = elim (Bool-cases (leb m.version to)) [
  | inl e ↦ let done' = later_done w to m rest e first in rw e (refl, ground arith)
  | inr e ↦ elim (Bool-cases (in_versions m.version s.versions)) [
    | inl k ↦
        let (good, left) = revert_lem w to rest (after_down m s) order in
        rw (e, k) (good, left ∙ rw in_versions-without (ground (arith, ==_iff m.version w)))
    | inr k ↦
        let (good, left) = revert_lem w to rest s order in
        rw (e, k) (good, left ∙ ground (arith, ==_iff m.version w))
  ]
]

has_version-insert_sorted :
    (w : ℕ) (m : Migration) (ms : List Migration)
    → has_version w (insert_sorted by_version_down m ms) ≡ has_version w (m ∷ ms)
unfolding insert_sorted
has_version-insert_sorted w m [] = refl
has_version-insert_sorted w m (a ∷ ms) = elim (Bool-cases (by_version_down m a)) [
  | inl e ↦ rw e refl
  | inr e ↦ rw e (ground (arith, has_version-insert_sorted w m ms))
]

has_version-sort :
    (w : ℕ) (ms : List Migration) → has_version w (sort by_version_down ms) ≡ has_version w ms
unfolding sort
has_version-sort w [] = refl
has_version-sort w (m ∷ ms) =
    ground (arith, has_version-insert_sorted w m (sort by_version_down ms), has_version-sort w ms)

down_total : (a b : Migration) → by_version_down a b ≡ false → by_version_down b a ≡ true
down_total a b h = ground arith

down_trans :
    (a b c : Migration)
    → by_version_down a b ≡ true
    → by_version_down b c ≡ true
    → by_version_down a c ≡ true
down_trans a b c h k = ground arith

-- With nothing failing, Migrate and then MigrateDown end without an error, and the versions that are left are
-- the ones up to the target that were applied before or that a migration has, and those above it that were
-- applied before and that no migration has.
pub migrate_down-migrate :
    (w to : ℕ) (ms : List Migration) (s : Schema)
    → ((migrate_down no_faults to ms (migrate no_faults ms s).schema).error ≡ none)
      × (in_versions w
            (migrate_down no_faults to ms (migrate no_faults ms s).schema).schema.versions
          ≡ (if leb w to
              then in_versions w s.versions || has_version w ms
              else in_versions w s.versions && not (has_version w ms)))
unfolding migrate_down
migrate_down-migrate w to ms s =
    let sorted = sort-IsSorted by_version_down down_total down_trans ms in
    let (good, left) =
      revert_lem w to (sort by_version_down ms) (migrate no_faults ms s).schema sorted in
    let (up, there) = migrate_completes w ms s in
    (good, left ∙ rw (has_version-sort w ms, there) (ground arith))
