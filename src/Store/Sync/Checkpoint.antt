-- ===== src/Store/Sync/Checkpoint.antt =====
-- The checkpoint that is kept for a replica.
use huginn_messenger.Prelude.{ℕ, ◌≡◌, refl, String, some, arith, str_eq, eq_iff, max, if◌then◌else◌}
use huginn_messenger.Prelude.Result.{ok}
use huginn_messenger.Store.Sql.{lookup}
use huginn_messenger.Store.Sql.Laws.{lookup-upsert}
use huginn_messenger.Store.Rows.{state_check_pk, Db}
use huginn_messenger.Store.Sync.{
  get_last_state_check, set_last_state_check, latest_check, or_zero, checked_at,
}

-- What is read for a peer, as a number; 0 before the first check.
abbrev pub last_check_of : String → Db → ℕ
last_check_of p db = or_zero (checked_at (lookup state_check_pk p db.last_state_check))

-- A successful SetLastStateCheck leaves the later of the two times for its peer, and every other
-- peer's as it was; so a checkpoint never moves back. GetLastStateCheck then returns it.
pub set_last_state_check-max :
    (p j : String) (t : ℕ) (db db' : Db)
    → set_last_state_check p (some t) db ≡ ok db'
    → (last_check_of j db'
        ≡ (if str_eq p j then max (last_check_of j db) t else last_check_of j db))
      × (get_last_state_check p db' ≡ ok (some (max (last_check_of p db) t)))
unfolding set_last_state_check get_last_state_check
set_last_state_check-max p j t db db' h = ground (
  arith,
  lookup-upsert state_check_pk latest_check (λ o e. refl)
      (record { peer_id = p; last_check_datetime = t }) j db.last_state_check,
  lookup-upsert state_check_pk latest_check (λ o e. refl)
      (record { peer_id = p; last_check_datetime = t }) p db.last_state_check,
  eq_iff p j,
  eq_iff p p,
)
