-- ===== src/Vault/Key/Keeps.antt =====
-- Steps that keep a property of the repository, whether they fail or not.
use citius_server.Prelude.{Bool, true, false}
use citius_server.Errors.{Error, Result, ok, err}
use citius_server.Vault.Key.Types.{Repo}
use citius_server.Vault.Key.Act.{Act, continue, wrap_first, guard}

module _ {S : Type 0} (P : Repo S → Type 0) where
  pub kept_continue :
      {A B : Type 0} (f : A → Act S B) (p : Result A × Repo S)
      → P p.1
      → ((a : A) (r : Repo S) → P r → P (f a r).1)
      → P (continue f p).1
  kept_continue f (ok a, r) h k = k a r h
  kept_continue f (err e, r) h k = h

  pub kept_result :
      {A B : Type 0} (f : A → Act S B) (r : Repo S) (a : Result A)
      → P r
      → ((v : A) → P (f v r).1)
      → P (continue f (a, r)).1
  kept_result f r (ok v) h k = k v
  kept_result f r (err e) h k = h

  pub kept_guard :
      {B : Type 0} (f : Unit {0} → Act S B) (r : Repo S) (b : Bool) (e : Error)
      → P r
      → P (f tt r).1
      → P (continue f (guard b e r)).1
  kept_guard f r true e h k = k
  kept_guard f r false e h k = h

  pub kept_wrapping : {A : Type 0} (p : Result A × Repo S) → P p.1 → P (wrap_first p).1
  kept_wrapping (ok a, r) h = h
  kept_wrapping (err e, r) h = h
