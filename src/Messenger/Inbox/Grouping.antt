-- ===== src/Messenger/Inbox/Grouping.antt =====
-- The grouping of the records of an answer by their message.
use huginn_messenger.Prelude.{
  ◌≡◌, refl, subst, String, Bool, true, false, List, [], ◌∷◌, ◌++◌, if◌then◌else◌, All, inl, inr,
  ◌⊎◌, str_eq, eq_iff,
}
use huginn_messenger.Store.Rows.{Db}
use huginn_messenger.Messenger.Session.{ChunkRecord}
use huginn_messenger.Messenger.Inbox.{Groups, add_record, is_settled, group_records}
use huginn_messenger.Messenger.Inbox.Collect.Tracked.{FirstIsMessage}

-- A property of each record of each message.
abbrev pub AllGroups : (String → ChunkRecord → Type 0) → Groups → Type 0
AllGroups P groups = All (λ (g : String × List ChunkRecord). All (P g.0) g.1) groups

module _ (P : String → ChunkRecord → Type 0) where
  All-append :
      (id : String) (xs : List ChunkRecord) (c : ChunkRecord)
      → All (P id) (xs ++ c ∷ [])
      → All (P id) xs × P id c
  All-append id [] c h = (tt, h.0)
  All-append id (x ∷ xs) c h = let rest = All-append id xs c h.1 in ((h.0, rest.0), rest.1)

  add_record-AllGroups :
      (c : ChunkRecord) (groups : Groups)
      → AllGroups P (add_record c groups)
      → AllGroups P groups × P c.file_id c
  unfolding add_record
  add_record-AllGroups c [] h = (tt, h.0.0)
  add_record-AllGroups c ((id, cs) ∷ groups) h =
      by_test (str_eq id c.file_id) (eq_iff id c.file_id).0 (add_record-AllGroups c groups) h
    where
      by_test :
          (b : Bool)
          → (b ≡ true → id ≡ c.file_id)
          → (AllGroups P (add_record c groups) → AllGroups P groups × P c.file_id c)
          → AllGroups P (if b then (id, cs ++ c ∷ []) ∷ groups else (id, cs) ∷ add_record c groups)
          → (All (P id) cs × AllGroups P groups) × P c.file_id c
      by_test true same again k =
          let both = All-append id cs c k.0 in
          ((both.0, k.1), subst (λ x. P x c) (same refl) both.1)
      by_test false same again k = let rest = again k.1 in ((k.0, rest.0), rest.1)

  -- What holds of all records that are grouped holds of each record of the answer that is not
  -- settled.
  pub group_records-AllGroups :
      (d : Db) (cs : List ChunkRecord) (groups : Groups)
      → AllGroups P (group_records d cs groups)
      → AllGroups P groups × All (λ c. (is_settled d c ≡ true) ⊎ P c.file_id c) cs
  unfolding group_records
  group_records-AllGroups d [] groups h = (h, tt)
  group_records-AllGroups d (c ∷ cs) groups h =
      by_test (is_settled d c) refl
        (group_records-AllGroups d cs (if is_settled d c then groups else add_record c groups) h)
    where
      by_test :
          (b : Bool)
          → is_settled d c ≡ b
          → AllGroups P (if b then groups else add_record c groups)
            × All (λ c. (is_settled d c ≡ true) ⊎ P c.file_id c) cs
          → AllGroups P groups
            × (((is_settled d c ≡ true) ⊎ P c.file_id c)
                × All (λ c. (is_settled d c ≡ true) ⊎ P c.file_id c) cs)
      by_test true e k = (k.0, (inl e, k.1))
      by_test false e k =
          let both = add_record-AllGroups c groups k.0 in (both.0, (inr both.1, k.1))

-- If no record of the answer is a file's, no first record of a message is.
abbrev pub AllMessages : Groups → Type 0
AllMessages groups = All (λ (g : String × List ChunkRecord). FirstIsMessage g.1) groups

add_record-AllMessages :
    (c : ChunkRecord) (groups : Groups)
    → c.persist ≡ false
    → AllMessages groups
    → AllMessages (add_record c groups)
unfolding add_record
add_record-AllMessages c [] h k = (h, tt)
add_record-AllMessages c ((id, cs) ∷ groups) h k =
    by_test (str_eq id c.file_id) (add_record-AllMessages c groups h k.1)
  where
    still : (xs : List ChunkRecord) → FirstIsMessage xs → FirstIsMessage (xs ++ c ∷ [])
    still [] m = h
    still (x ∷ xs) m = m

    by_test :
        (b : Bool)
        → AllMessages (add_record c groups)
        → AllMessages (if b then (id, cs ++ c ∷ []) ∷ groups else (id, cs) ∷ add_record c groups)
    by_test true rest = (still cs k.0, k.1)
    by_test false rest = (k.0, rest)

pub group_records-AllMessages :
    (d : Db) (cs : List ChunkRecord) (groups : Groups)
    → All (λ (c : ChunkRecord). c.persist ≡ false) cs
    → AllMessages groups
    → AllMessages (group_records d cs groups)
unfolding group_records
group_records-AllMessages d [] groups h k = k
group_records-AllMessages d (c ∷ cs) groups h k =
    group_records-AllMessages d cs (if is_settled d c then groups else add_record c groups) h.1
      (by_test (is_settled d c))
  where
    by_test : (b : Bool) → AllMessages (if b then groups else add_record c groups)
    by_test true = k
    by_test false = add_record-AllMessages c groups h.0 k
