-- ===== src/Messenger/StateSync/Ack.antt =====
-- What an acknowledgement does to the checkpoints.
use huginn_messenger.Prelude.{
  ℕ, ◌≤◌, ◌≡◌, refl, ◌∙◌, Bool, true, false, not, some, arith, if◌then◌else◌, String, max, str_eq,
  eq_iff, Bool-cases, ◌⊎◌, inl, inr,
}
use huginn_messenger.Prelude.Int.{ℤ, pos, negsuc}
use huginn_messenger.Prelude.Result.{Result, ok, err}
use huginn_messenger.Store.Sql.{Error}
use huginn_messenger.Store.Rows.{Db}
use huginn_messenger.Store.Sync.{set_last_state_check}
use huginn_messenger.Store.Sync.Checkpoint.{last_check_of, set_last_state_check-max}
use huginn_messenger.Messenger.StateSync.{
  SyncState, StateSyncAck, matches, has_error, persist_checkpoint, drop_outgoing,
  handle_state_sync_ack,
}

-- What may become of the checkpoint of `j`.
abbrev IsForward : String → String → ℕ → ℕ → Type 0
IsForward peer j before after = (before ≤ after) × ((after ≡ before) ⊎ (peer ≡ j))

set-IsForward :
    (peer j : String) (t : ℕ) (db db' : Db)
    → set_last_state_check peer (some t) db ≡ ok db'
    → IsForward peer j (last_check_of j db) (last_check_of j db')
set-IsForward peer j t db db' h =
    let (there, got) = set_last_state_check-max peer j t db db' h in
    elim (Bool-cases (str_eq peer j)) [
      | inl e ↦
          let now : last_check_of j db' ≡ max (last_check_of j db) t = there ∙ rw e refl in
          (omega arith, inr ((eq_iff peer j).0 e))
      | inr e ↦
          let now : last_check_of j db' ≡ last_check_of j db = there ∙ rw e refl in
          (omega arith, inl now)
    ]

persist-IsForward :
    (peer j : String) (checkpoint : ℤ) (s : SyncState)
    → IsForward peer j
        (last_check_of j s.db)
        (last_check_of j (persist_checkpoint peer checkpoint s).db)
persist-IsForward peer j (negsuc n) s = (omega arith, inl refl)
persist-IsForward peer j (pos t) s = by_result (set_last_state_check peer (some t) s.db) refl
  where
    by_result :
        (r : Result Error Db)
        → set_last_state_check peer (some t) s.db ≡ r
        → IsForward peer j (last_check_of j s.db) (
            last_check_of j
              (elim r as (λ x. SyncState) [
                | err e ↦ s
                | ok db ↦ drop_outgoing peer (record s { db = db })
              ]).db)
    by_result (err e) h = (omega arith, inl refl)
    by_result (ok db) h = set-IsForward peer j t s.db db h

-- No acknowledgement moves a checkpoint back, and one moves a checkpoint only if it reports no
-- error, matches the transfer that was sent to that peer, and comes from that peer.
pub handle_state_sync_ack-forward :
    (peer j : String) (ack : StateSyncAck) (s : SyncState)
    → (last_check_of j s.db ≤ last_check_of j (handle_state_sync_ack peer ack s).db)
      × ((last_check_of j (handle_state_sync_ack peer ack s).db ≡ last_check_of j s.db)
          ⊎ ((matches (s.outgoing peer) ack ≡ true) × (has_error ack ≡ false) × (peer ≡ j)))
unfolding handle_state_sync_ack
handle_state_sync_ack-forward peer j ack s =
    by_tests (matches (s.outgoing peer) ack) (has_error ack)
      (persist-IsForward peer j ack.checkpoint s)
  where
    by_tests :
        (m e : Bool)
        → IsForward peer j
            (last_check_of j s.db)
            (last_check_of j (persist_checkpoint peer ack.checkpoint s).db)
        → (last_check_of j s.db
            ≤ last_check_of j
                (if not m
                  then s
                  else if e
                  then drop_outgoing peer s
                  else persist_checkpoint peer ack.checkpoint s).db)
          × ((last_check_of j
                  (if not m
                    then s
                    else if e
                    then drop_outgoing peer s
                    else persist_checkpoint peer ack.checkpoint s).db
                ≡ last_check_of j s.db)
              ⊎ ((m ≡ true) × (e ≡ false) × (peer ≡ j)))
    by_tests false e h = (omega arith, inl refl)
    by_tests true true h = (omega arith, inl refl)
    by_tests true false (le, inl same) = (le, inl same)
    by_tests true false (le, inr own) = (le, inr (refl, refl, own))
