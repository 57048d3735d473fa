-- ===== src/Vault/Key/Linked.antt =====
-- Keys and names stand for each other in every repository that the methods reach.
use citius_server.Prelude.{
  ℕ, ◌≡◌, refl, ap, ◌∙◌, ◌≢◌, inl, inr, false, Option, none, some, List, [], ◌∷◌, arith,
  Option-cases, Text,
}
use citius_server.Errors.{Error, Result, ok, err, wrapped, Result-cases}
use citius_server.Vault.Storage.{IsSteady}
use citius_server.Vault.Key.Types.{Key, Version, Libraries, Options, Repo, Names, custom, mapped}
use citius_server.Vault.Key.Act.{Ends, wrapping, on_names}
use citius_server.Vault.Key.Keeps.{kept_continue, kept_result, kept_wrapping}
use citius_server.Vault.Key.Names.{resolve_key_name_to_id}
use citius_server.Vault.Key.Entries.{get_key, not_found_again, version_key_str, version_prefix}
use citius_server.Vault.Key.Writes.{created_at, update_key, delete_key}
use citius_server.Vault.Key.Calls.{
  create_key, get_key_by_name, update_key_call, delete_key_call, delete_versions, add_version,
  next_version,
}
use citius_server.Vault.Key.Spec.{IsLibraries, is_custom, name_at, Same}
use citius_server.Vault.Key.NameLaws.{IsFree}
use citius_server.Vault.Key.EntryLaws.{fetch_found, fetch_missing}
use citius_server.Vault.Key.CreateLaws.{Created, create_key_atomic, create_key_adds}
use citius_server.Vault.Key.DeleteLaws.{delete_key-KeyRemoved}
use citius_server.Vault.Key.AddLaws.{
  KeyUpdated, Bumped, update_key-Ends, add_version_atomic, add_version_bumps,
}
use citius_server.Vault.Key.Runs.{
  Call, create, find_by_name, update, delete, add, perform, perform_all,
}
use citius_server.Vault.Key.Reach.{kept_call}
use citius_server.Vault.Key.Mapped.{
  store-IsMapped, delete-IsMapped, resolve-IsMapped, name_at-resolve,
}
use citius_server.Vault.Key.Links.{
  StoredKey, Linked, Linked-same, Linked-add, Linked-update, Linked-remove,
}

module _ {S : Type 0} (contents : S → Text → Option Text) (x : Libraries S)
    (lib : IsLibraries x contents) (steady : IsSteady x.storage contents) where
  -- The names are stored, and stand for the keys that have them.
  pub record IsLinked (r : Repo S) : Type 0 where
    pub kept_in_storage : is_custom r.names ≡ false
    pub links : Linked x.unmarshal_key (contents r.keys) (name_at contents r.names)

  Links : Repo S → Type 0
  Links r = Linked x.unmarshal_key (contents r.keys) (name_at contents r.names)

  pub stored_of_read :
      (id : Text) (key : Key) (r : Repo S)
      → get_key x id r ≡ ok key
      → StoredKey x.unmarshal_key (contents r.keys) id key
  unfolding get_key not_found_again
  stored_of_read id key r h = elim (Option-cases (contents r.keys id)) [
    | inl free ↦
        absurd
          (ground (arith, fetch_missing x.storage contents x.unmarshal_key steady r.keys id free))
    | inr (b, found) ↦ record {
      bytes = b;
      at = found;
      reads =
          ground (arith, fetch_found x.storage contents x.unmarshal_key steady r.keys id b found);
    }
  ]

  Same-Links : (r r' : Repo S) → Links r → Same contents r r' → Links r'
  unfolding Links
  Same-Links r r' l s = Linked-same x.unmarshal_key _ _ _ _ l s.keys s.names

  free_name :
      (name : Text) (n : Names S)
      → IsFree x.storage contents name n
      → is_custom n ≡ false
      → (name ≢ []) × (name_at contents n name ≡ none)
  free_name name (custom f) free kind = absurd (ground arith)
  free_name name (mapped s cache) free kind = free

  Created-Links :
      (opts : Options) (now later : ℕ) (key : Key) (initial : Version) (r r' : Repo S)
      → IsLinked r
      → Created contents x opts now later key initial r r'
      → Links r'
  unfolding Links
  Created-Links opts now later key initial r r' l c =
      let a = c.key_added in
      let (ne, free) = free_name key.name r.names a.name_free l.kept_in_storage in
      Linked-add x.unmarshal_key _ _ _ _ (created_at now key) a.bytes l.links a.free free ne
        (lib.read_key (created_at now key) a.bytes a.encoded)
        (λ j. ap (λ s. contents s j) c.version_added.keys ∙ a.keys j)
        (λ j.
          ap (λ n. name_at contents n j) c.version_added.names
          ∙ ground (arith, a.names j, l.kept_in_storage))

  updated-Links :
      (now : ℕ) (key : Key) (r r' : Repo S)
      → Links r
      → KeyUpdated contents x now key r r'
      → Links r'
  unfolding Links
  updated-Links now key r r' l u =
      Linked-update x.unmarshal_key _ _ _ _ u.old (record key { update_time = now }) u.bytes l
        (stored_of_read key.public_id u.old r u.read) u.same_name
        (lib.read_key (record key { update_time = now }) u.bytes u.encoded) u.keys
        (λ j. ap (λ n. name_at contents n j) u.names)

  updated_end :
      (now : ℕ) (key : Key) (r : Repo S) (p : Result (Unit {0}) × Repo S)
      → Links r
      → Ends (λ _. KeyUpdated contents x now key r) (λ r'. r' ≡ r) p
      → Links p.1
  updated_end now key r (ok u, q) l h = updated-Links now key r q l h
  updated_end now key r (err e, q) l h = rw h l

  removed-Links :
      (id : Text) (r : Repo S) → Links r → is_custom r.names ≡ false → Links (delete_key x id r).1
  unfolding Links
  removed-Links id r l kind = elim (Result-cases (get_key x id r)) [
    | inr (e, failed) ↦ unfold delete_key in rw failed l
    | inl (key, found) ↦
        let stored = stored_of_read id key r found in
        let (was, reads, _, ne, _) = l.named id stored.bytes stored.at in
        let the_key : was ≡ key = ground (arith, reads, stored.reads) in
        let (r', done, removed) =
          delete_key-KeyRemoved contents x lib steady id key r found (λ _. rw (← the_key) ne) in
        rw done (Linked-remove x.unmarshal_key _ _ _ _ id key l stored removed.keys removed.names)
  ]

  -- Deleting versions leaves the keys and the names alone.
  versions-Links :
      (id : Text) (versions : List Text) (r : Repo S)
      → Links r
      → Links (delete_versions x id versions r).1
  unfolding delete_versions Links
  versions-Links id [] r l = l
  versions-Links id (v ∷ versions) r l =
      elim (Result-cases (x.storage.delete r.key_versions (version_key_str id v))) [
        | inr (e, failed) ↦ rw (failed, delete_versions) l
        | inl (t, done) ↦
            rw (done, delete_versions)
              (versions-Links id versions (record r { key_versions = t }) l)
      ]

  Bumped-Links :
      (now later : ℕ) (version : Version) (r r' : Repo S)
      → Links r
      → Bumped contents x now later version r r'
      → Links r'
  unfolding Links
  Bumped-Links now later version r r' l b =
      let a = b.version_is_added in
      updated-Links later (record b.key { current_version = next_version b.key }) b.middle r'
        (Linked-same x.unmarshal_key _ _ _ _ l (λ j. ap (λ s. contents s j) a.keys)
          (λ j. ap (λ n. name_at contents n j) a.names))
        b.key_is_updated

  ended :
      (m : Result (Unit {0}) × Repo S)
      → ((r' : Repo S) → m ≡ (ok tt, r') → Links r')
      → ((e : Error) (r' : Repo S) → m ≡ (err e, r') → Links r')
      → Links m.1
  ended (ok u, r') good bad = good r' refl
  ended (err e, r') good bad = bad e r' refl

  call-Links : (c : Call) (r : Repo S) → IsLinked r → Links (perform x c r)
  unfolding perform Links
  call-Links (create opts now later none initial) r l = unfold create_key in l.links
  call-Links (create opts now later (some key) none) r l = unfold create_key in l.links
  call-Links (create opts now later (some key) (some initial)) r l =
      ended (create_key x opts now later (some key) (some initial) r)
        (λ r' done.
          Created-Links opts now later key initial r r' l
            (create_key_adds contents x lib steady opts now later key initial r done))
        (λ e r' failed. Same-Links r r' l.links (
          create_key_atomic contents x lib steady opts now later (some key) (some initial) r
            failed))
  call-Links (find_by_name name) r l =
      unfold get_key_by_name in
      kept_continue Links _ (wrapping (on_names (resolve_key_name_to_id x.storage name)) r)
        (kept_wrapping Links (on_names (resolve_key_name_to_id x.storage name) r) (
          unfold Links in
          Linked-same x.unmarshal_key _ _ _ _ l.links (λ j. refl)
            (λ j. name_at-resolve x.storage contents name j r.names)))
        λ _ _ h. h
  call-Links (update opts now none) r l = unfold update_key_call in l.links
  call-Links (update opts now (some key)) r l =
      unfold update_key_call in
      kept_wrapping Links (update_key x opts.vet_for_write now key r) (
        updated_end now key r (update_key x opts.vet_for_write now key r) l.links
          (update_key-Ends contents x lib steady opts.vet_for_write now key r))
  call-Links (delete id) r l =
      unfold delete_key_call in
      kept_continue Links _ (wrapping (delete_key x id) r)
        (kept_wrapping Links (delete_key x id r) (removed-Links id r l.links l.kept_in_storage))
        λ _ q h.
          kept_result Links _ q (wrapped (x.storage.list q.key_versions (version_prefix id))) h
            λ versions. versions-Links id versions q h
  call-Links (add opts now later version) r l =
      ended (add_version x opts now later version r)
        (λ r' done.
          Bumped-Links now later version r r' l.links
            (add_version_bumps contents x lib steady opts now later version r done))
        (λ e r' failed.
          Same-Links r r' l.links
            (add_version_atomic contents x lib steady opts now later version r failed))

  -- Over a storage whose reads and deletions succeed while writes may fail, with an encoding that
  -- reads back what it wrote: if names are stored, each stored key can be read, has the id it is
  -- stored at and a name that stands for it, and each name stands for a key that has it, then this
  -- is so after any calls, whichever of them fail.
  pub perform_all-IsLinked :
      (calls : List Call) (r : Repo S) → IsLinked r → IsLinked (perform_all x calls r)
  unfolding perform_all
  perform_all-IsLinked [] r l = l
  perform_all-IsLinked (c ∷ calls) r l = perform_all-IsLinked calls (perform x c r) (record {
    kept_in_storage =
        kept_call x (λ n. is_custom n ≡ false) (store-IsMapped x.storage)
          (delete-IsMapped x.storage) (resolve-IsMapped x.storage) c r l.kept_in_storage;
    links = unfold Links in call-Links c r l;
  })
