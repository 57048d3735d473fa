-- ===== src/Vault/Memory.antt =====
-- A storage kept in memory, as a concrete instance of the storage that the repositories use. It
-- refuses to write at the keys of a given list, so that failing writes can be run.
use citius_server.Prelude.{
  ◌≡◌, refl, true, Option, none, some, List, [], ◌∷◌, arith, eqb, if◌then◌else◌, ◌==◌, Text,
  text_eq_iff, text_Eq, ◌++◌, ◌≢◌, Bool-cases, inl, text_eq_refl, inr,
}
use citius_server.Prelude.{lookup}
use citius_server.Errors.{ok, err, foreign}
use citius_server.Vault.Storage.{Storage, IsStorage, IsSteady, IsListing, holds}

abbrev pub Memory : Type 0
Memory = List (Text × Text)

erase : Text → Memory → Memory
erase k [] = []
erase k ((j, v) ∷ s) = let rest = erase k s in if k == j then rest else (j, v) ∷ rest

-- What follows a prefix.
after : Text → Text → Option Text
after [] k = some k
after (c ∷ p) [] = none
after (c ∷ p) (d ∷ k) = let rest = after p k in if eqb c d then rest else none

names_after : Text → Memory → List Text
unfolding after
names_after p [] = []
names_after p ((k, v) ∷ s) =
    let rest = names_after p s in elim (after p k) [ none ↦ rest | some n ↦ n ∷ rest ]

abbrev pub held : Memory → Text → Option Text
held s k = lookup k s

unfoldable pub memory : List Text → Storage Memory
unfolding lookup erase names_after
memory refused = record {
  get = λ s k. ok (held s k);
  put = λ s k v. if holds refused k then err (foreign 1) else ok ((k, v) ∷ erase k s);
  delete = λ s k. ok (erase k s);
  list = λ s p. ok (names_after p s);
}

held-erase :
    (k : Text) (s : Memory) (j : Text) → held (erase k s) j ≡ (if k == j then none else held s j)
unfolding lookup erase
held-erase k [] j = ground arith
held-erase k ((i, v) ∷ s) j =
    ground (arith, held-erase k s j, text_eq_iff i j, text_eq_iff k i, text_eq_iff k j)

pub memory-IsStorage : (refused : List Text) → IsStorage (memory refused) held
unfolding memory lookup
memory-IsStorage refused = record {
  get_reads = λ s k h. ground arith;
  put_writes = λ s k v {t} h j. ground (arith, held-erase k s j);
  delete_removes = λ s k {t} h j. ground (arith, held-erase k s j);
}

pub memory-IsSteady : (refused : List Text) → IsSteady (memory refused) held
unfolding memory
memory-IsSteady refused = record { reads = λ s k. refl; deletes = λ s k. (erase k s, refl) }

after-append : (p j : Text) → after p (p ++ j) ≡ some j
unfolding after
after-append [] j = refl
after-append (c ∷ p) j = ground (arith, after-append p j)

listed_after : (p j : Text) (s : Memory) → held s (p ++ j) ≢ none → holds (names_after p s) j ≡ true
unfolding lookup names_after
listed_after p j [] h = absurd (h refl)
listed_after p j ((k, v) ∷ s) h = elim (Bool-cases (k == p ++ j)) [
  | inl here ↦
      rw ((text_eq_iff k (p ++ j)).0 here, names_after, after-append p j, text_eq_refl j) refl
  | inr there ↦ later (after p k) (listed_after p j s (rw there at h))
]
  where
    later :
        (o : Option Text)
        → holds (names_after p s) j ≡ true
        → holds (elim o [ none ↦ names_after p s | some n ↦ n ∷ names_after p s ]) j ≡ true
    later none g = g
    later (some n) g = ground arith

pub memory-IsListing : (refused : List Text) → IsListing (memory refused) held
unfolding memory
memory-IsListing refused = record {
  lists_all = λ s p {names} h j clean there.
      let same : names_after p s ≡ names = ground arith in rw (← same) (listed_after p j s there);
}
