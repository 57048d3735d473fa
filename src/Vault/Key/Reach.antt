-- ===== src/Vault/Key/Reach.antt =====
-- What the three steps on the name mapping keep, the methods keep, however they end.
use citius_server.Prelude.{
  ℕ, inl, inr, Bool, not, Option, none, some, List, [], ◌∷◌, eqb, ◌==◌, Text, text_Eq,
}
use citius_server.Errors.{Result-cases, Result, ok, err, wrapped, new, invalid_argument}
use citius_server.Vault.Key.Types.{
  Key, Version, Libraries, Options, Repo, op_create, op_update, Names,
}
use citius_server.Vault.Key.Act.{wrapping, on_names}
use citius_server.Vault.Key.Keeps.{kept_continue, kept_result, kept_guard, kept_wrapping}
use citius_server.Vault.Key.Names.{
  store_key_name_to_id, delete_key_name_to_id, resolve_key_name_to_id,
}
use citius_server.Vault.Key.Entries.{
  version_key, version_key_str, version_prefix, get_key, get_key_version,
}
use citius_server.Vault.Key.Writes.{
  vetted, absent, key_saved, key_deleted, key_updated, version_saved, put_key, update_key,
  delete_key, put_key_version,
}
use citius_server.Vault.Key.Calls.{
  create_key, created, get_key_by_name, update_key_call, delete_key_call, delete_versions,
  add_version, version_added, next_version,
}
use citius_server.Vault.Key.Runs.{
  Call, create, find_by_name, update, delete, add, perform, perform_all,
}

module _ {S : Type 0} (x : Libraries S) (P : Names S → Type 0)
    (stored : (name id : Text) (n : Names S) → P n → P (store_key_name_to_id x.storage name id n).1)
    (removed : (name : Text) (n : Names S) → P n → P (delete_key_name_to_id x.storage name n).1)
    (resolved : (name : Text) (n : Names S)
      → P n
      → P (resolve_key_name_to_id x.storage name n).1) where
  abbrev Good : Repo S → Type 0
  Good r = P r.names

  kept_save :
      (name : Text) (saved : Result S) (r : Repo S) → Good r → Good (key_saved x name saved r).1
  kept_save name (ok t) r g = g
  kept_save name (err e) r g = removed name r.names g

  kept_key : (saved : Result S) (r : Repo S) → Good r → Good (key_updated saved r).1
  kept_key (ok t) r g = g
  kept_key (err e) r g = g

  kept_removal : (gone : Result S) (r : Repo S) → Good r → Good (key_deleted gone r).1
  kept_removal (ok t) r g = g
  kept_removal (err e) r g = g

  kept_version : (saved : Result S) (r : Repo S) → Good r → Good (version_saved saved r).1
  kept_version (ok t) r g = g
  kept_version (err e) r g = g

  kept_put :
      (vet : Bool) (now : ℕ) (key : Key) (r : Repo S) → Good r → Good (put_key x vet now key r).1
  unfolding put_key
  kept_put vet now key r g = kept_result Good _ r (vetted vet (x.vet_key op_create key)) g λ _.
      kept_result Good _ r (absent x.is_key_not_found (get_key x key.public_id r)) g λ _.
        kept_continue Good _
          (wrapping (on_names (store_key_name_to_id x.storage key.name key.public_id)) r)
          (kept_wrapping Good (on_names (store_key_name_to_id x.storage key.name key.public_id) r)
            (stored key.name key.public_id r.names g))
          λ _ q. kept_save key.name _ q

  kept_update :
      (vet : Bool) (now : ℕ) (key : Key) (r : Repo S) → Good r → Good (update_key x vet now key r).1
  unfolding update_key
  kept_update vet now key r g = kept_result Good _ r (vetted vet (x.vet_key op_update key)) g λ _.
      kept_result Good _ r (wrapped (get_key x key.public_id r)) g
        λ old. kept_guard Good _ r (old.name == key.name) (new invalid_argument) g (kept_key _ r g)

  kept_delete : (id : Text) (r : Repo S) → Good r → Good (delete_key x id r).1
  unfolding delete_key
  kept_delete id r g = kept_result Good _ r (wrapped (get_key x id r)) g λ key.
      kept_continue Good _ (wrapping (on_names (delete_key_name_to_id x.storage key.name)) r)
        (kept_wrapping Good (on_names (delete_key_name_to_id x.storage key.name) r)
          (removed key.name r.names g))
        λ _ q. kept_removal _ q

  kept_put_version :
      (vet : Bool) (now : ℕ) (v : Version) (r : Repo S)
      → Good r
      → Good (put_key_version x vet now v r).1
  unfolding put_key_version
  kept_put_version vet now v r g =
      kept_result Good _ r (vetted vet (x.vet_version op_create v)) g λ _.
        kept_result Good _ r (absent x.is_key_not_found (get_key_version x v.key_id v.version r)) g
          λ _. kept_version _ r g

  kept_created : (id : Text) (p : Result (Unit {0}) × Repo S) → Good p.1 → Good (created x id p).1
  kept_created id (ok u, r) g = g
  kept_created id (err e, r) g = kept_delete id r g

  kept_create :
      (opts : Options) (now later : ℕ) (key : Option Key) (initial : Option Version) (r : Repo S)
      → Good r
      → Good (create_key x opts now later key initial r).1
  unfolding create_key
  kept_create opts now later none initial r g = g
  kept_create opts now later (some key) none r g = g
  kept_create opts now later (some key) (some initial) r g =
      kept_guard Good _ r (key.public_id == initial.key_id) (new invalid_argument) g (
        kept_guard Good _ r (eqb initial.version opts.initial_version) (new invalid_argument) g (
          kept_continue Good _ (wrapping (put_key x opts.vet_for_write now key) r)
            (kept_wrapping Good (put_key x opts.vet_for_write now key r)
              (kept_put opts.vet_for_write now key r g))
            λ _ q h.
              kept_created key.public_id (put_key_version x opts.vet_for_write later initial q)
                (kept_put_version opts.vet_for_write later initial q h)))

  kept_by_name : (name : Text) (r : Repo S) → Good r → Good (get_key_by_name x name r).1
  unfolding get_key_by_name
  kept_by_name name r g =
      kept_continue Good _ (wrapping (on_names (resolve_key_name_to_id x.storage name)) r)
        (kept_wrapping Good (on_names (resolve_key_name_to_id x.storage name) r)
          (resolved name r.names g))
        λ _ _ h. h

  kept_update_call :
      (opts : Options) (now : ℕ) (key : Option Key) (r : Repo S)
      → Good r
      → Good (update_key_call x opts now key r).1
  unfolding update_key_call
  kept_update_call opts now none r g = g
  kept_update_call opts now (some key) r g =
      kept_wrapping Good (update_key x opts.vet_for_write now key r)
        (kept_update opts.vet_for_write now key r g)

  kept_versions :
      (id : Text) (versions : List Text) (r : Repo S)
      → Good r
      → Good (delete_versions x id versions r).1
  unfolding delete_versions
  kept_versions id [] r g = g
  kept_versions id (v ∷ versions) r g =
      elim (Result-cases (x.storage.delete r.key_versions (version_key_str id v))) [
        | inr (e, failed) ↦ rw (failed, delete_versions) g
        | inl (t, done) ↦
            rw (done, delete_versions) (kept_versions id versions (record r { key_versions = t }) g)
      ]

  kept_delete_call : (id : Text) (r : Repo S) → Good r → Good (delete_key_call x id r).1
  unfolding delete_key_call
  kept_delete_call id r g =
      kept_continue Good _ (wrapping (delete_key x id) r)
        (kept_wrapping Good (delete_key x id r) (kept_delete id r g))
        λ _ q h.
          kept_result Good _ q (wrapped (x.storage.list q.key_versions (version_prefix id))) h
            λ versions. kept_versions id versions q h

  kept_added :
      (at : Text) (p : Result (Unit {0}) × Repo S) → Good p.1 → Good (version_added x at p).1
  kept_added at (ok u, r) g = g
  kept_added at (err e, r) g = elim (Result-cases (x.storage.delete r.key_versions at)) [
    | inr (e', failed) ↦ rw (failed, version_added) g
    | inl (t, done) ↦ rw (done, version_added) g
  ]

  kept_add :
      (opts : Options) (now later : ℕ) (version : Version) (r : Repo S)
      → Good r
      → Good (add_version x opts now later version r).1
  unfolding add_version
  kept_add opts now later version r g =
      kept_guard Good _ r (not (version.key_id == [])) (new invalid_argument) g (
        kept_result Good _ r (wrapped (get_key x version.key_id r)) g λ key.
          kept_guard Good _ r (eqb version.version (next_version key)) (new invalid_argument) g (
            kept_continue Good _ (wrapping (put_key_version x opts.vet_for_write now version) r)
              (kept_wrapping Good (put_key_version x opts.vet_for_write now version r)
                (kept_put_version opts.vet_for_write now version r g))
              λ _ q h.
                kept_added (version_key version.key_id version.version)
                  (update_key x opts.vet_for_write later
                    (record key { current_version = next_version key }) q)
                  (kept_update opts.vet_for_write later
                    (record key { current_version = next_version key }) q h)))

  pub kept_call : (c : Call) (r : Repo S) → Good r → Good (perform x c r)
  unfolding perform
  kept_call (create opts now later key initial) r g = kept_create opts now later key initial r g
  kept_call (find_by_name name) r g = kept_by_name name r g
  kept_call (update opts now key) r g = kept_update_call opts now key r g
  kept_call (delete id) r g = kept_delete_call id r g
  kept_call (add opts now later version) r g = kept_add opts now later version r g

  pub perform_all-kept :
      (calls : List Call) (r : Repo S) → P r.names → P (perform_all x calls r).names
  unfolding perform_all
  perform_all-kept [] r g = g
  perform_all-kept (c ∷ calls) r g = perform_all-kept calls (perform x c r) (kept_call c r g)
