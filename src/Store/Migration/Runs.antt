-- ===== src/Store/Migration/Runs.antt =====
-- What a run of the migrations leaves behind.
use huginn_messenger.Prelude.{
  ◌≡◌, refl, String, Bool, true, Option, none, some, List, [], ◌∷◌, arith, ◌||◌, str_eq, eq_refl,
  All, subst, sym,
}
use huginn_messenger.Store.Sql.Laws.{any-append}
use huginn_messenger.Store.Clock.{Time}
use huginn_messenger.Store.Migration.{
  Migration, AppliedMigration, Outcome, MigrationError, Database, is_applied, applied_row,
  apply_migration, apply_migrations, run_migrations,
}

-- Nothing is left to do for a migration: it is recorded, or it has no script.
abbrev pub is_settled : List AppliedMigration → Migration → Bool
is_settled rows m = is_applied rows m.id || str_eq m.sqlite ""

module _ {Schema : Type 0} (exec : String → Schema → Outcome × Schema)
    (checksum : Migration → String) where
  -- A run over settled migrations does nothing.
  settled_run :
      (applied : List AppliedMigration) (now : Time) (ms : List Migration) (db : Database Schema)
      → All (λ m. is_settled applied m ≡ true) ms
      → apply_migrations exec checksum applied now ms db ≡ (db, none)
  unfolding apply_migrations apply_migration
  settled_run applied now [] db a = refl
  settled_run applied now (m ∷ ms) db a = ground (arith, settled_run applied now ms db a.1)

  -- A recorded row stays recorded.
  step_keeps :
      (applied : List AppliedMigration) (now : Time) (m : Migration) (db : Database Schema)
      (id : String)
      → is_applied db.schema_version id ≡ true
      → is_applied (apply_migration exec checksum applied now m db).0.schema_version id ≡ true
  unfolding apply_migration
  step_keeps applied now m db id h = ground (
    arith,
    any-append (λ (r : AppliedMigration). str_eq r.id id) db.schema_version
        (applied_row exec checksum m now ∷ []),
  )

  run_keeps :
      (applied : List AppliedMigration) (now : Time) (ms : List Migration) (db : Database Schema)
      (id : String)
      → is_applied db.schema_version id ≡ true
      → is_applied (apply_migrations exec checksum applied now ms db).0.schema_version id ≡ true
  unfolding apply_migrations
  run_keeps applied now [] db id h = h
  run_keeps applied now (m ∷ ms) db id h = ground (
    arith,
    step_keeps applied now m db id h,
    run_keeps applied now ms (apply_migration exec checksum applied now m db).0 id,
  )

  -- A round that ends without an error has settled its migration, if what was read before the loop
  -- is still recorded.
  step_settles :
      (applied : List AppliedMigration) (now : Time) (m : Migration) (db : Database Schema)
      → (is_applied applied m.id ≡ true → is_applied db.schema_version m.id ≡ true)
      → (apply_migration exec checksum applied now m db).1 ≡ none
      → is_settled (apply_migration exec checksum applied now m db).0.schema_version m ≡ true
  unfolding apply_migration
  step_settles applied now m db keeps h = ground (
    arith,
    any-append (λ (r : AppliedMigration). str_eq r.id m.id) db.schema_version
        (applied_row exec checksum m now ∷ []),
    eq_refl m.id,
  )

  abbrev pub AllSettled : Database Schema → List Migration → Type 0
  AllSettled db ms = All (λ m. is_settled db.schema_version m ≡ true) ms

  settled_stays :
      (applied : List AppliedMigration) (now : Time) (ms : List Migration) (m : Migration)
      (db : Database Schema)
      → is_settled db.schema_version m ≡ true
      → is_settled (apply_migrations exec checksum applied now ms db).0.schema_version m ≡ true
  settled_stays applied now ms m db h = ground (arith, run_keeps applied now ms db m.id)

  -- A run without an error is a round without one, and the run of the rest.
  run-cons :
      (applied : List AppliedMigration) (now : Time) (m : Migration) (ms : List Migration)
      (db : Database Schema)
      → (apply_migrations exec checksum applied now (m ∷ ms) db).1 ≡ none
      → ((apply_migration exec checksum applied now m db).1 ≡ none)
        × (apply_migrations exec checksum applied now (m ∷ ms) db
            ≡ apply_migrations exec checksum applied now ms
                (apply_migration exec checksum applied now m db).0)
  unfolding apply_migrations
  run-cons applied now m ms db h = by_error (apply_migration exec checksum applied now m db).1 refl
    where
      by_error :
          (e : Option MigrationError)
          → (apply_migration exec checksum applied now m db).1 ≡ e
          → ((apply_migration exec checksum applied now m db).1 ≡ none)
            × (apply_migrations exec checksum applied now (m ∷ ms) db
                ≡ apply_migrations exec checksum applied now ms
                    (apply_migration exec checksum applied now m db).0)
      by_error none p = (p, rw (p, apply_migrations))
      by_error (some e) p = absurd (ground (arith))

  loop_settles :
      (applied : List AppliedMigration) (now : Time) (ms : List Migration) (db : Database Schema)
      → ((id : String) → is_applied applied id ≡ true → is_applied db.schema_version id ≡ true)
      → (apply_migrations exec checksum applied now ms db).1 ≡ none
      → AllSettled (apply_migrations exec checksum applied now ms db).0 ms
  loop_settles applied now [] db keeps h = tt
  loop_settles applied now (m ∷ ms) db keeps h =
      let (ended, rest) = run-cons applied now m ms db h in
      let db' = (apply_migration exec checksum applied now m db).0 in
      subst (λ r. AllSettled r.0 (m ∷ ms)) (sym rest)
        (
          settled_stays applied now ms m db' (step_settles applied now m db (keeps m.id) ended),
          loop_settles applied now ms db' (λ id e. step_keeps applied now m db id (keeps id e))
              (rw rest at h),
        )

  -- A run of the migrations that reports no error has recorded every migration that has a script, and
  -- a second run, at any later time, changes nothing and reports none either.
  pub run_migrations_idempotent :
      (ms : List Migration) (now later : Time) (db : Database Schema)
      → (run_migrations exec checksum ms now db).1 ≡ none
      → AllSettled (run_migrations exec checksum ms now db).0 ms
        × (run_migrations exec checksum ms later (run_migrations exec checksum ms now db).0
            ≡ ((run_migrations exec checksum ms now db).0, none))
  unfolding run_migrations
  run_migrations_idempotent ms now later db h =
      let settled = loop_settles db.schema_version now ms db (λ id e. e) h in
      (
        settled,
        settled_run (apply_migrations exec checksum db.schema_version now ms db).0.schema_version
            later ms (apply_migrations exec checksum db.schema_version now ms db).0 settled,
      )
