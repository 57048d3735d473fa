-- ===== src/Vault/Key/Act.antt =====
-- Methods that change the repository and may fail.
use citius_server.Prelude.{◌≡◌, refl, Bool, if◌then◌else◌, true, false}
use citius_server.Errors.{Error, Result, ok, err, wrap}
use citius_server.Vault.Key.Types.{Repo, Names}

-- The result of a method, and the repository after it. What was written before an error stays.
abbrev pub Act : Type 0 → Type 0 → Type 0
Act S A = Repo S → Result A × Repo S

abbrev pub continue : {S A B : Type 0} → (A → Act S B) → Result A × Repo S → Result B × Repo S
continue f (ok a, r) = f a r
continue f (err e, r) = (err e, r)

infixl 5 ◌>>=◌ ◌>>◌
abbrev pub ◌>>=◌ : {S A B : Type 0} → Act S A → (A → Act S B) → Act S B
◌>>=◌ m f r = continue f (m r)

abbrev pub ◌>>◌ : {S B : Type 0} → Act S (Unit {0}) → Act S B → Act S B
m >> k = m >>= λ _. k

abbrev pub wrap_first : {S A : Type 0} → Result A × Repo S → Result A × Repo S
wrap_first (ok a, r) = (ok a, r)
wrap_first (err e, r) = (err (wrap e), r)

-- `if err != nil { return errors.Wrap(ctx, op, err) }` behind a call.
abbrev pub wrapping : {S A : Type 0} → Act S A → Act S A
wrapping m r = wrap_first (m r)

-- A step that only reads.
abbrev pub reading : {S A : Type 0} → (Repo S → Result A) → Act S A
reading f r = (f r, r)

abbrev pub guard : {S : Type 0} → Bool → Error → Act S (Unit {0})
guard b e r = (if b then ok tt else err e, r)

abbrev set_names : {S A : Type 0} → Repo S → Result A × Names S → Result A × Repo S
set_names r (a, names) = (a, record r { names = names })

-- A step on the name mapping.
abbrev pub on_names : {S A : Type 0} → (Names S → Result A × Names S) → Act S A
on_names f r = set_names r (f r.names)

-- What holds in the end: `P` of the result and the repository, or `Q` of the repository after an
-- error.
abbrev pub Ends :
    {S A : Type 0} → (A → Repo S → Type 0) → (Repo S → Type 0) → Result A × Repo S → Type 0
Ends P Q (ok a, r) = P a r
Ends P Q (err e, r) = Q r

module _ {S A B : Type 0} (P' : A → Repo S → Type 0) (P : B → Repo S → Type 0)
    (Q : Repo S → Type 0) where
  pub Ends-continue :
      (f : A → Act S B) (p : Result A × Repo S)
      → Ends P' Q p
      → ((a : A) (r : Repo S) → P' a r → Ends P Q (f a r))
      → Ends P Q (continue f p)
  Ends-continue f (ok a, r) h k = k a r h
  Ends-continue f (err e, r) h k = h

module _ {S A B : Type 0} (P : B → Repo S → Type 0) (Q : Repo S → Type 0) where
  pub Ends-result :
      (f : A → Act S B) (r : Repo S) (a : Result A)
      → Q r
      → ((v : A) → a ≡ ok v → Ends P Q (f v r))
      → Ends P Q (continue f (a, r))
  Ends-result f r (ok v) q k = k v refl
  Ends-result f r (err e) q k = q

module _ {S A : Type 0} (P : A → Repo S → Type 0) (Q : Repo S → Type 0) where
  pub Ends-wrapping : (p : Result A × Repo S) → Ends P Q p → Ends P Q (wrap_first p)
  Ends-wrapping (ok a, r) h = h
  Ends-wrapping (err e, r) h = h

module _ {S B : Type 0} (P : B → Repo S → Type 0) (Q : Repo S → Type 0) where
  pub Ends-guard :
      (b : Bool) (e : Error) (f : Unit {0} → Act S B) (r : Repo S)
      → Q r
      → (b ≡ true → Ends P Q (f tt r))
      → Ends P Q (continue f (guard b e r))
  Ends-guard true e f r q k = k refl
  Ends-guard false e f r q k = q
