-- ===== src/Vault/Key/Links.antt =====
-- Keys and names that stand for each other, and the changes that keep them so.
use citius_server.Prelude.{
  ◌≡◌, sym, ap, ◌∙◌, subst, ◌≢◌, inl, inr, Option, none, some, [], arith, if◌then◌else◌, Bool-cases,
  ◌==◌, Text, text_eq_iff, text_eq_refl, text_Eq,
}
use citius_server.Errors.{Result, ok}
use citius_server.Vault.Key.Types.{Key}

module _ (unmarshal : Text → Result Key) where
  -- What is stored at `id` is `key`.
  pub record StoredKey (keys : Text → Option Text) (id : Text) (key : Key) : Type 0 where
    pub bytes : Text
    pub at : keys id ≡ some bytes
    pub reads : unmarshal bytes ≡ ok key

  -- Every stored key can be read, knows its id, and has a name that stands for it; every name stands
  -- for a key that has it.
  pub record Linked (keys names : Text → Option Text) : Type 0 where
    pub named :
        (id b : Text)
        → keys id ≡ some b
        → (key : Key) × (unmarshal b ≡ ok key)
          × (key.public_id ≡ id)
          × (key.name ≢ [])
          × (names key.name ≡ some id)
    pub owned :
        (name id : Text)
        → names name ≡ some id
        → (key : Key) × StoredKey keys id key × (key.name ≡ name)

  pub Linked-same :
      (keys names keys' names' : Text → Option Text)
      → Linked keys names
      → ((j : Text) → keys' j ≡ keys j)
      → ((j : Text) → names' j ≡ names j)
      → Linked keys' names'
  Linked-same keys names keys' names' l k n = record {
    named = λ id b h.
        let (key, reads, same, ne, back) = l.named id b (sym (k id) ∙ h) in
        (key, reads, same, ne, n key.name ∙ back);
    owned = λ name id h.
        let (key, stored, same) = l.owned name id (sym (n name) ∙ h) in
        (key, record { bytes = stored.bytes; at = k id ∙ stored.at; reads = stored.reads }, same);
  }

  pub Linked-add :
      (keys names keys' names' : Text → Option Text) (key : Key) (bytes : Text)
      → Linked keys names
      → keys key.public_id ≡ none
      → names key.name ≡ none
      → key.name ≢ []
      → unmarshal bytes ≡ ok key
      → ((j : Text) → keys' j ≡ (if key.public_id == j then some bytes else keys j))
      → ((j : Text) → names' j ≡ (if key.name == j then some key.public_id else names j))
      → Linked keys' names'
  Linked-add keys names keys' names' key bytes l free name_free ne reads k n = record {
    named = λ id b h. elim (Bool-cases (key.public_id == id)) [
      | inl same ↦ (
        key,
        ground (arith, k id),
        (text_eq_iff key.public_id id).0 same,
        ne,
        ground (arith, n key.name, text_eq_refl key.name, text_eq_iff key.public_id id),
      )
      | inr other ↦
          let (old, reads', same, ne', back) = l.named id b (ground (arith, k id)) in
          (old, reads', same, ne', ground (arith, n old.name, text_eq_iff key.name old.name))
    ];
    owned = λ name id h. elim (Bool-cases (key.name == name)) [
      | inl same ↦ (
        key,
        record { bytes = bytes; at = ground (arith, k id, n name, text_eq_refl id); reads = reads },
        (text_eq_iff key.name name).0 same,
      )
      | inr other ↦
          let (old, stored, same) = l.owned name id (ground (arith, n name)) in
          (
            old,
            record {
              bytes = stored.bytes;
              at = ground (arith, k id, stored.at, text_eq_iff key.public_id id);
              reads = stored.reads;
            },
            same,
          )
    ];
  }

  pub Linked-update :
      (keys names keys' names' : Text → Option Text) (old key : Key) (bytes : Text)
      → Linked keys names
      → StoredKey keys key.public_id old
      → old.name ≡ key.name
      → unmarshal bytes ≡ ok key
      → ((j : Text) → keys' j ≡ (if key.public_id == j then some bytes else keys j))
      → ((j : Text) → names' j ≡ names j)
      → Linked keys' names'
  Linked-update keys names keys' names' old key bytes l stored same_name reads k n = record {
    named = λ id b h. elim (Bool-cases (key.public_id == id)) [
      | inl same ↦
          let (was, reads', _, ne, back) = l.named key.public_id stored.bytes stored.at in
          let the_old : was ≡ old = ground (arith, stored.reads, reads') in
          let name : was.name ≡ key.name = ap (λ w. w.name) the_old ∙ same_name in
          (
            key,
            ground (arith, k id),
            (text_eq_iff key.public_id id).0 same,
            subst (λ w. w ≢ []) name ne,
            n key.name ∙ rw (← name, ← (text_eq_iff key.public_id id).0 same) back,
          )
      | inr other ↦
          let (was, reads', same, ne, back) = l.named id b (ground (arith, k id)) in
          (was, reads', same, ne, n was.name ∙ back)
    ];
    owned = λ name id h.
        let (was, found, same) = l.owned name id (sym (n name) ∙ h) in
        elim (Bool-cases (key.public_id == id)) [
          | inl here ↦
              let e : key.public_id ≡ id = (text_eq_iff key.public_id id).0 here in
              let the_old : was ≡ old =
                ground (arith, found.at, found.reads, stored.at, stored.reads) in
              (
                key,
                record { bytes = bytes; at = ground (arith, k id); reads = reads },
                sym same_name ∙ sym (ap (λ w. w.name) the_old) ∙ same,
              )
          | inr other ↦ (
            was,
            record {
              bytes = found.bytes;
              at = ground (arith, k id, found.at);
              reads = found.reads;
            },
            same,
          )
        ];
  }

  pub Linked-remove :
      (keys names keys' names' : Text → Option Text) (id : Text) (key : Key)
      → Linked keys names
      → StoredKey keys id key
      → ((j : Text) → keys' j ≡ (if id == j then none else keys j))
      → ((j : Text) → names' j ≡ (if key.name == j then none else names j))
      → Linked keys' names'
  Linked-remove keys names keys' names' id key l stored k n = record {
    named = λ j b h.
        let (was, reads, same, ne, back) = l.named j b (ground (arith, k j)) in
        let (old, reads', _, _, back') = l.named id stored.bytes stored.at in
        let the_old : old ≡ key = ground (arith, stored.reads, reads') in
        let mine : names key.name ≡ some id = rw (← the_old) back' in
        (
          was,
          reads,
          same,
          ne,
          ground (arith, n was.name, text_eq_iff key.name was.name, k j, text_eq_iff id j),
        );
    owned = λ name j h.
        let (was, found, same) = l.owned name j (ground (arith, n name)) in
        (
          was,
          record {
            bytes = found.bytes;
            at = elim (Bool-cases (id == j)) [
              | inr other ↦ ground (arith, k j, found.at)
              | inl here ↦
                  let e : id ≡ j = (text_eq_iff id j).0 here in
                  let the_key : was ≡ key =
                    ground (arith, found.at, found.reads, stored.at, stored.reads) in
                  let mine : key.name ≡ name = rw (← the_key) same in
                  absurd (ground (arith, n name, text_eq_iff key.name name))
            ];
            reads = found.reads;
          },
          same,
        );
  }
