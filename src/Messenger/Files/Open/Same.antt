-- ===== src/Messenger/Files/Open/Same.antt =====
-- Decrypting a file changes neither the messages, nor the retry rows, nor the cursors.
use huginn_messenger.Prelude.{
  zero, suc, refl, String, Option, none, some, List, str_eq, Bool-cases, inl, inr,
}
use huginn_messenger.Prelude.Int.{ℤ, pos, negsuc}
use huginn_messenger.Chunk.{Envelope}
use huginn_messenger.Store.Rows.{Bytes}
use huginn_messenger.Messenger.Peers.{Peer}
use huginn_messenger.Messenger.Session.{FileMeta, Session, Env, find_sender}
use huginn_messenger.Messenger.Session.Same.{Same, find_sender-Same}
use huginn_messenger.Messenger.Files.Open.{
  file_sign_key, sign_key_of, decrypt_file, with_envelopes, by_total, read_envelopes, if_first,
  unmarshal_slot, slot, open_file,
}

module _ (env : Env) where
  sign_key_of-Same :
      (s : Session) (found : Option Peer × Session)
      → Same s found.1
      → Same s (sign_key_of env found).1
  sign_key_of-Same s (none, s') h = h
  sign_key_of-Same s (some p, s') h = h

  file_sign_key-Same : (sender : String) (s : Session) → Same s (file_sign_key env sender s).1
  unfolding file_sign_key
  file_sign_key-Same sender s = elim (Bool-cases (str_eq sender env.own_key)) [
    | inl e ↦ rw e (refl, refl, refl)
    | inr e ↦ rw e (sign_key_of-Same s (find_sender env sender s) (find_sender-Same env sender s))
  ]

  decrypt_file-Same :
      (f : FileMeta) (envelopes : List Envelope) (s : Session) (k : Option Bytes × Session)
      → Same s k.1
      → Same s (decrypt_file env f envelopes k).1
  decrypt_file-Same f envelopes s (none, s') h = h
  decrypt_file-Same f envelopes s (some sign_key, s') h = h

  with_envelopes-Same :
      (f : FileMeta) (sender : String) (s : Session) (o : Option (List Envelope))
      → Same s (with_envelopes env f sender s o).1
  with_envelopes-Same f sender s none = (refl, refl, refl)
  with_envelopes-Same f sender s (some envelopes) =
      decrypt_file-Same f envelopes s (file_sign_key env sender s) (file_sign_key-Same sender s)

  by_total-Same :
      (f : FileMeta) (sender : String) (chunk_map : List (ℤ × Bytes)) (s : Session) (total : ℤ)
      → Same s (by_total env f sender chunk_map s total).1
  by_total-Same f sender chunk_map s (pos zero) = (refl, refl, refl)
  by_total-Same f sender chunk_map s (pos (suc n)) =
      with_envelopes-Same f sender s (read_envelopes env chunk_map (suc n) 0)
  by_total-Same f sender chunk_map s (negsuc n) = (refl, refl, refl)

  if_first-Same :
      (f : FileMeta) (sender : String) (chunk_map : List (ℤ × Bytes)) (s : Session)
      (first : Option Envelope)
      → Same s (if_first env f sender chunk_map s first).1
  if_first-Same f sender chunk_map s none = (refl, refl, refl)
  if_first-Same f sender chunk_map s (some env0) = by_total-Same f sender chunk_map s f.total_chunks

  pub open_file-Same :
      (f : FileMeta) (sender : String) (chunk_map : List (ℤ × Bytes)) (s : Session)
      → Same s (open_file env f sender chunk_map s).1
  unfolding open_file
  open_file-Same f sender chunk_map s =
      if_first-Same f sender chunk_map s (unmarshal_slot env (slot (pos 0) chunk_map))
