-- ===== src/Vault/Key/NameLaws.antt =====
-- What the steps on the name mapping do to the names that it holds.
use citius_server.Prelude.{
  ◌≡◌, refl, sym, ◌≢◌, inl, inr, false, Option, none, some, [], arith, if◌then◌else◌, Bool-cases,
  ◌==◌, Text, text_eq_iff, text_Eq,
}
use citius_server.Errors.{Result, ok, err, Result-cases}
use citius_server.Vault.Storage.{Storage, IsStorage, IsSteady}
use citius_server.Vault.Key.Types.{Names, custom, mapped}
use citius_server.Vault.Key.Names.{store_key_name_to_id, delete_key_name_to_id}
use citius_server.Vault.Key.Spec.{is_custom, name_at}

module _ {S : Type 0} (x : Storage S) (contents : S → Text → Option Text) where
  -- A name that can be given: the mapping is not stored, or has no such name yet.
  abbrev pub IsFree : Text → Names S → Type 0
  IsFree name (custom f) = Unit {0}
  IsFree name (mapped s cache) = (name ≢ []) × (contents s name ≡ none)

  -- After `storeKeyNameToID`: the name was free and now has the id, or nothing has changed.
  abbrev pub NameStored : Text → Text → Names S → Result (Unit {0}) × Names S → Type 0
  NameStored name id n (ok u, m) =
      IsFree name n
      × (is_custom m ≡ is_custom n)
      × ((j : Text)
          → name_at contents m j
            ≡ (if is_custom n then none else if name == j then some id else name_at contents n j))
  NameStored name id n (err e, m) = m ≡ n

  module _ (law : IsStorage x contents) where
    pub store_key_name_to_id-NameStored :
        (name id : Text) (n : Names S) → NameStored name id n (store_key_name_to_id x name id n)
    unfolding store_key_name_to_id
    store_key_name_to_id-NameStored name id (custom f) = (tt, refl, λ j. refl)
    store_key_name_to_id-NameStored name id (mapped s cache) = elim (Bool-cases (name == [])) [
      | inl empty ↦ rw empty refl
      | inr named ↦ elim (Bool-cases (id == [])) [
        | inl empty ↦ rw (named, empty) refl
        | inr given ↦ elim (Result-cases (x.get s name)) [
          | inr (e, failed) ↦ rw (named, given, failed) refl
          | inl (some v, found) ↦ rw (named, given, found) refl
          | inl (none, free) ↦ elim (Result-cases (x.put s name id)) [
            | inr (e, failed) ↦ rw (named, given, free, failed) refl
            | inl (t, written) ↦
                rw (named, given, free, written)
                  (
                    ((λ p. ground (arith, text_eq_iff name [])), sym (law.get_reads s name free)),
                    refl,
                    law.put_writes s name id written,
                  )
          ]
        ]
      ]
    ]

    -- With deletions that succeed a name is cleared.
    pub name_at-delete :
        (steady : IsSteady x contents) (name : Text) (n : Names S)
        → (is_custom n ≡ false → name ≢ [])
        → (is_custom (delete_key_name_to_id x name n).1 ≡ is_custom n)
          × ((delete_key_name_to_id x name n).0 ≡ ok tt)
          × ((j : Text)
              → name_at contents (delete_key_name_to_id x name n).1 j
                ≡ (if name == j then none else name_at contents n j))
    unfolding delete_key_name_to_id
    name_at-delete steady name (custom f) ne = (refl, refl, λ j. ground arith)
    name_at-delete steady name (mapped s cache) ne =
        let (t, done) = steady.deletes s name in
        elim (Bool-cases (name == [])) [
          | inl empty ↦ absurd (ne refl ((text_eq_iff name []).0 empty))
          | inr named ↦ rw (named, done) (refl, refl, law.delete_removes s name done)
        ]
