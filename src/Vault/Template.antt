-- ===== src/Vault/Template.antt =====
-- vault-storage/template/vault_registry.go: the registry of algorithm templates. Each method holds
-- the registry's lock throughout.
use citius_server.Prelude.{
  ◌≡◌, refl, ap, ◌∙◌, ◌≢◌, inl, inr, Bool, true, false, Option, none, some, List, [], ◌∷◌, arith,
  if◌then◌else◌, Bool-cases, Option-cases, ◌==◌, Text, text_eq_iff, text_Eq, text_eq_refl,
}
use citius_server.Errors.{Result, ok, err, new, wrap, wrapped, invalid_argument, template_not_found}
use citius_server.Vault.Storage.{Storage, IsStorage, IsSteady}
use citius_server.Vault.Collection.{Codec, IsCodec, put_value, get_value, get_value-after_put}

-- What the registry sees of a template.
pub record Template : Type 0 where
  pub template_id : Text
  pub rest : Text

-- What `IsRestricted` and `IDs` return of a `CandidateSet`.
pub record Candidates : Type 0 where
  pub is_restricted : Bool
  pub ids : List Text

-- The first template of a list that passes a test.
abbrev pub first_match : (Template → Bool) → List Template → Option Template
first_match test [] = none
first_match test (t ∷ ts) = let rest = first_match test ts in if test t then some t else rest

abbrev pub chosen : Option Template → Result Template
chosen none = err (new template_not_found)
chosen (some t) = ok t

module _ {S : Type 0} (x : Storage S) (c : Codec Template) where
  unfoldable pub register : Option Template → S → Result (Unit {0}) × S
  register none s = (err (new invalid_argument), s)
  register (some t) s =
      if t.template_id == []
      then (err (new invalid_argument), s)
      else put_value x c t.template_id t s

  unfoldable pub get : Text → S → Result Template
  get = get_value x c template_not_found

  -- The template of an id, where there is one that can be read.
  readable : Result (Option Text) → Option Template
  readable (err e) = none
  readable (ok none) = none
  readable (ok (some b)) = elim (c.unmarshal b) [ err e ↦ none | ok t ↦ some t ]

  unfoldable pub list_ids : List Text → S → List Template
  unfolding readable
  list_ids [] s = []
  list_ids (id ∷ ids) s =
      let rest = list_ids ids s in elim (readable (x.get s id)) [ none ↦ rest | some t ↦ t ∷ rest ]

  unfoldable pub list : S → List Template
  unfolding list_ids
  list s = elim (x.list s []) [ err e ↦ [] | ok ids ↦ list_ids ids s ]

  kept : Template → Result Bool → Result (List Template) → Result (List Template)
  kept t (err e) rest = err (wrap e)
  kept t (ok false) rest = rest
  kept t (ok true) (err e) = err e
  kept t (ok true) (ok ts) = ok (t ∷ ts)

  unfoldable pub select_templates_with_ids :
      List Text → (Template → Result Bool) → S → Result (List Template)
  unfolding readable kept
  select_templates_with_ids [] filter s = ok []
  select_templates_with_ids (id ∷ ids) filter s =
      let rest = select_templates_with_ids ids filter s in
      elim (readable (x.get s id)) [ none ↦ rest | some t ↦ kept t (filter t) rest ]

  best : Result (List Template) → Result Template
  best (err e) = err (wrap e)
  best (ok []) = err (new template_not_found)
  best (ok (t ∷ ts)) = ok t

  -- Steps 1 to 3 of `Select`.
  scan : Result (List Text) → (Template → Result Bool) → S → Result Template
  unfolding select_templates_with_ids best
  scan (err e) filter s = err (wrap e)
  scan (ok ids) filter s = best (select_templates_with_ids ids filter s)

  searched : Candidates → (Template → Result Bool) → S → Result Template
  unfolding scan
  searched cs filter s = scan (if cs.is_restricted then ok cs.ids else x.list s []) filter s

  only : List Text → Option Text
  only (id ∷ []) = some id
  only [] = none
  only (id ∷ j ∷ ids) = none

  -- The id of the fast path: one candidate, and a nil `scopeSpec`.
  unfoldable pub direct : {Scope : Type 0} → Option Scope → Candidates → Option Text
  unfolding only
  direct none cs = if cs.is_restricted then only cs.ids else none
  direct (some scope) cs = none

  -- `matches` is `coretemplate.MatchesScope`.
  unfoldable pub select :
      {Scope : Type 0}
      → (Template → Option Scope → Result Bool)
      → Option Scope
      → Candidates
      → S
      → Result Template
  unfolding searched get
  select matches scope cs s = elim (direct scope cs) [
    | some id ↦ get id s
    | none ↦ searched cs (λ t. wrapped (matches t scope)) s
  ]

  passing : (Template → Bool) → List Template → List Template
  passing test [] = []
  passing test (t ∷ ts) = let rest = passing test ts in if test t then t ∷ rest else rest

  select_templates_with_ids-passing :
      (filter : Template → Result Bool) (test : Template → Bool) (ids : List Text) (s : S)
      → ((t : Template) → filter t ≡ ok (test t))
      → select_templates_with_ids ids filter s ≡ ok (passing test (list_ids ids s))
  unfolding select_templates_with_ids list_ids passing
  select_templates_with_ids-passing filter test [] s total = refl
  select_templates_with_ids-passing filter test (id ∷ ids) s total =
      let rest = select_templates_with_ids-passing filter test ids s total in
      elim (Option-cases (readable (x.get s id))) [
        | inl skipped ↦ rw (skipped, list_ids, select_templates_with_ids) rest
        | inr (t, read) ↦ elim (Bool-cases (test t)) [
          | inl passes ↦
              rw (read, list_ids, select_templates_with_ids, total t, rest, passing, passes) refl
          | inr fails ↦ rw (read, list_ids, select_templates_with_ids, total t, passing, fails) rest
        ]
      ]

  best-passing :
      (test : Template → Bool) (ts : List Template)
      → best (ok (passing test ts)) ≡ chosen (first_match test ts)
  unfolding best passing
  best-passing test [] = refl
  best-passing test (t ∷ ts) = ground (arith, best-passing test ts)

  -- When `Select` searches, which it does unless it is given one candidate and no scope, and
  -- matching a template never fails, it returns the first template that matches, in the order of
  -- the candidates, or of all that are stored where they are not restricted; candidates that are
  -- not stored or cannot be read are passed over, and if none matches it fails as not found.
  pub select-first_match :
      {Scope : Type 0} (matches : Template → Option Scope → Result Bool) (scope : Option Scope)
      (cs : Candidates) (s : S) (test : Template → Bool) (ids : List Text)
      → direct scope cs ≡ none
      → (if cs.is_restricted then ok cs.ids else x.list s []) ≡ ok ids
      → ((t : Template) → matches t scope ≡ ok (test t))
      → select matches scope cs s ≡ chosen (first_match test (list_ids ids s))
  unfolding select searched scan
  select-first_match matches scope cs s test ids searching given total =
      rw
        (
          select,
          searching,
          given,
          select_templates_with_ids-passing (λ t. wrapped (matches t scope)) test ids s
              (λ t. ap wrapped (total t)),
        )
        (best-passing test (list_ids ids s))

module _ {S : Type 0} (x : Storage S) (c : Codec Template) (contents : S → Text → Option Text)
    (law : IsStorage x contents) (steady : IsSteady x contents) (codec : IsCodec c) where
  -- Over a storage whose reads and deletions succeed, with an encoding that reads back what it
  -- wrote: after a successful `Register`, `Get` returns the template under its id, which is not
  -- empty, also where another was registered under it before, and under every other id what it
  -- returned before; `Select` of that id alone without a scope returns the template too.
  pub get-register :
      {Scope : Type 0} (matches : Template → Option Scope → Result Bool) (t : Template) (s u : S)
      → register x c (some t) s ≡ (ok tt, u)
      → (t.template_id ≢ [])
        × ((j : Text) → get x c j u ≡ (if t.template_id == j then ok t else get x c j s))
        × (select x c matches none (record { is_restricted = true; ids = t.template_id ∷ [] }) u
            ≡ ok t)
  unfolding register get select direct
  get-register matches t s u h = elim (Bool-cases (t.template_id == [])) [
    | inl empty ↦ absurd (ground arith)
    | inr named ↦
        let done : put_value x c t.template_id t s ≡ (ok tt, u) = rw named at h in
        let after : (j : Text)
            → get_value x c template_not_found j u
              ≡ (if t.template_id == j then ok t else get_value x c template_not_found j s) =
          λ j. rw done at (
            get_value-after_put x c contents law steady codec template_not_found t.template_id t s
              j) in
        (
          (λ e. ground (arith, text_eq_iff t.template_id [])),
          after,
          after t.template_id ∙ ground (arith, text_eq_refl t.template_id),
        )
  ]
