-- ===== src/Vault/Collection.antt =====
-- What the repositories of policies, provider instances and templates share: one view of the
-- storage, with an encoded value under each name.
use citius_server.Prelude.{
  ◌≡◌, refl, ap, ◌∙◌, inl, inr, Option, none, some, List, [], arith, if◌then◌else◌, Option-cases,
  ◌==◌, Text, text_eq_iff, text_Eq,
}
use citius_server.Errors.{Code, Error, Result, ok, err, new, wrap, wrapped, Result-cases}
use citius_server.Vault.Storage.{Storage, IsStorage, IsSteady}

-- `proto.Marshal` and `proto.Unmarshal` of the values.
pub record Codec (A : Type 0) : Type 0 where
  pub marshal : A → Result Text
  pub unmarshal : Text → Result A

-- What was encoded is read back.
pub record IsCodec {A : Type 0} (c : Codec A) : Type 0 where
  pub reads_back : (a : A) (b : Text) → c.marshal a ≡ ok b → c.unmarshal b ≡ ok a

module _ {S A : Type 0} (x : Storage S) (c : Codec A) where
  -- `Put` of an entry, and the view after it.
  put_bytes : Text → S → Result Text → Result (Unit {0}) × S
  put_bytes name s (err e) = (err (wrap e), s)
  put_bytes name s (ok b) = elim (x.put s name b) [ err e ↦ (err (wrap e), s) | ok t ↦ (ok tt, t) ]

  unfoldable pub put_value : Text → A → S → Result (Unit {0}) × S
  unfolding put_bytes
  put_value name value s = put_bytes name s (c.marshal value)

  read_entry : Code → Result (Option Text) → Result A
  read_entry code (err e) = err (wrap e)
  read_entry code (ok none) = err (new code)
  read_entry code (ok (some b)) = wrapped (c.unmarshal b)

  unfoldable pub get_value : Code → Text → S → Result A
  unfolding read_entry
  get_value code name s = read_entry code (x.get s name)

  delete_entry : Code → Text → S → Result (Option Text) → Result (Unit {0}) × S
  delete_entry code name s (err e) = (err (wrap e), s)
  delete_entry code name s (ok none) = (err (new code), s)
  delete_entry code name s (ok (some b)) = elim (x.delete s name) [
    | err e ↦ (err e, s)
    | ok t ↦ (ok tt, t)
  ]

  unfoldable pub delete_value : Code → Text → S → Result (Unit {0}) × S
  unfolding delete_entry
  delete_value code name s = delete_entry code name s (x.get s name)

  unfoldable pub list_names : S → Result (List Text)
  list_names s = wrapped (x.list s [])

module _ {S A : Type 0} (x : Storage S) (c : Codec A) (contents : S → Text → Option Text)
    (law : IsStorage x contents) (steady : IsSteady x contents) (codec : IsCodec c)
    (code : Code) where
  -- The value that is stored under a name.
  abbrev decoded : Option Text → Result A
  decoded none = err (new code)
  decoded (some b) = wrapped (c.unmarshal b)

  get_value-contents : (name : Text) (s : S) → get_value x c code name s ≡ decoded (contents s name)
  unfolding get_value
  get_value-contents name s = elim (Option-cases (contents s name)) [
    | inl free ↦ rw (steady.reads s name, free) refl
    | inr (b, found) ↦ rw (steady.reads s name, found) refl
  ]

  get_value-put_value :
      (name : Text) (value : A) (s : S) {t : S}
      → put_value x c name value s ≡ (ok tt, t)
      → (j : Text)
      → get_value x c code j t ≡ (if name == j then ok value else get_value x c code j s)
  unfolding put_value
  get_value-put_value name value s {t} h j = elim (Result-cases (c.marshal value)) [
    | inr (e, failed) ↦ absurd (ground arith)
    | inl (b, encoded) ↦ elim (Result-cases (x.put s name b)) [
      | inr (e, failed) ↦ absurd (ground arith)
      | inl (u, written) ↦
          let same : u ≡ t = ground arith in
          let put = law.put_writes s name b (written ∙ ap ok same) j in
          ground (
            arith,
            put,
            get_value-contents j t,
            get_value-contents j s,
            codec.reads_back value b encoded,
          )
    ]
  ]

  put_value_failed :
      (name : Text) (value : A) (s : S) {e : Error} {t : S}
      → put_value x c name value s ≡ (err e, t)
      → t ≡ s
  unfolding put_value
  put_value_failed name value s h = elim (Result-cases (c.marshal value)) [
    | inr (e, failed) ↦ ground arith
    | inl (b, encoded) ↦ elim (Result-cases (x.put s name b)) [
      | inr (e, failed) ↦ ground arith
      | inl (u, written) ↦ absurd (ground arith)
    ]
  ]

  pub delete_value_lem :
      (name : Text) (s : S)
      → let (a, t) = delete_value x c code name s in
        (a ≡ (elim (contents s name) [ none ↦ err (new code) | some b ↦ ok tt ]))
        × ((j : Text)
            → get_value x c code j t
              ≡ (if name == j then err (new code) else get_value x c code j s))
  unfolding delete_value
  delete_value_lem name s = elim (Option-cases (contents s name)) [
    | inl free ↦
        rw (steady.reads s name, free, delete_entry)
          (refl, λ j. ground (arith, get_value-contents j s, text_eq_iff name j))
    | inr (b, found) ↦
        let (t, gone) = steady.deletes s name in
        rw (steady.reads s name, found, delete_entry, gone)
          (
            refl,
            λ j. ground (
              arith,
              get_value-contents j s,
              get_value-contents j t,
              law.delete_removes s name gone j,
            ),
          )
  ]

  -- Reading after a write, whether it succeeded or not.
  pub get_value-after_put :
      (name : Text) (value : A) (s : S) (j : Text)
      → get_value x c code j (put_value x c name value s).1 ≡ (
          if name == j
          then (elim (put_value x c name value s).0 [
            | ok u ↦ ok value
            | err e ↦ get_value x c code j s
          ])
          else get_value x c code j s)
  get_value-after_put name value s j = elim (Result-cases (put_value x c name value s).0) [
    | inl (u, done) ↦ rw done (
        get_value-put_value name value s {t = (put_value x c name value s).1}
          (ap (λ a. (a, (put_value x c name value s).1)) done) j)
    | inr (e, failed) ↦
        let same =
          put_value_failed name value s {t = (put_value x c name value s).1}
            (ap (λ a. (a, (put_value x c name value s).1)) failed) in
        rw failed (ap (get_value x c code j) same ∙ ground arith)
  ]
