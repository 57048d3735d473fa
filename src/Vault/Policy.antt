-- ===== src/Vault/Policy.antt =====
-- vault-storage/policy/vault_repository.go: the repository of crypto policies. Each method holds the
-- repository's lock throughout.
use citius_server.Prelude.{◌≡◌, Option, none, some, List, if◌then◌else◌, ◌==◌, Text, text_Eq}
use citius_server.Errors.{Result, ok, err, new, invalid_argument, policy_not_found}
use citius_server.Vault.Storage.{Storage, IsStorage, IsSteady}
use citius_server.Vault.Collection.{
  Codec, IsCodec, put_value, get_value, delete_value, list_names, get_value-after_put,
  delete_value_lem,
}

-- What the repository sees of a policy.
pub record Policy : Type 0 where
  pub name : Text
  pub rest : Text

module _ {S : Type 0} (x : Storage S) (c : Codec Policy) where
  unfoldable pub put_policy : Option Policy → S → Result (Unit {0}) × S
  put_policy none s = (err (new invalid_argument), s)
  put_policy (some v) s = put_value x c v.name v s

  unfoldable pub get_policy : Text → S → Result Policy
  get_policy = get_value x c policy_not_found

  unfoldable pub delete_policy : Text → S → Result (Unit {0}) × S
  delete_policy = delete_value x c policy_not_found

  unfoldable pub list_policies : S → Result (List Text)
  list_policies = list_names x c

module _ {S : Type 0} (x : Storage S) (c : Codec Policy) (contents : S → Text → Option Text)
    (law : IsStorage x contents) (steady : IsSteady x contents) (codec : IsCodec c) where
  -- Over a storage whose reads and deletions succeed, with an encoding that reads back what it
  -- wrote: after a successful `PutPolicy`, `GetPolicy` returns the policy under its name, and
  -- under every other name what it returned before; after one that fails, it returns for every
  -- name what it returned before.
  pub get_policy-put_policy :
      (v : Policy) (s : S) (j : Text)
      → let (a, t) = put_policy x c (some v) s in
        get_policy x c j t ≡ (
          if v.name == j
          then (elim a [ ok u ↦ ok v | err e ↦ get_policy x c j s ])
          else get_policy x c j s)
  unfolding put_policy get_policy
  get_policy-put_policy v s =
      get_value-after_put x c contents law steady codec policy_not_found v.name v s

  -- Over a storage whose reads and deletions succeed: `DeletePolicy` of a name that holds nothing
  -- fails as not found, and otherwise it succeeds. In both cases `GetPolicy` then fails as not
  -- found for it, and returns for every other name what it returned before.
  pub get_policy-delete_policy :
      (name : Text) (s : S)
      → let (a, t) = delete_policy x c name s in
        (a ≡ (elim (contents s name) [ none ↦ err (new policy_not_found) | some b ↦ ok tt ]))
        × ((j : Text)
            → get_policy x c j t
              ≡ (if name == j then err (new policy_not_found) else get_policy x c j s))
  unfolding delete_policy get_policy
  get_policy-delete_policy name s =
      delete_value_lem x c contents law steady codec policy_not_found name s
