-- ===== src/Vault/RepositoryTests.antt =====
-- The repositories of policies, provider instances and templates on a concrete storage.
use citius_server.Prelude.{
  ℕ, ◌≡◌, refl, ◌≢◌, Bool, true, Option, none, some, List, [], ◌∷◌, ◌++◌, arith, if◌then◌else◌,
  length, take, drop, ◌==◌, Text, codes, text_Eq,
}
use citius_server.Prelude.{lookup, take-append, drop-append}
use citius_server.Errors.{Result, ok, err, new, foreign, policy_not_found, provider_not_found}
use citius_server.Vault.Memory.{Memory, memory, memory-IsStorage, memory-IsSteady, held}
use citius_server.Vault.Collection.{Codec, IsCodec, put_value}
use citius_server.Vault.Policy.{
  Policy, put_policy, get_policy, delete_policy, get_policy-put_policy, get_policy-delete_policy,
}
use citius_server.Vault.Provider.{
  Instance, put_provider_instance, get_provider_instance, delete_provider_instance,
  get_provider_instance-put_provider_instance, get_provider_instance-delete_provider_instance,
}
use citius_server.Vault.Template.{
  Template, register, get, select, direct, list_ids, first_match, chosen, select-first_match,
  get-register,
}

-- A name and what follows it.
framed : Text → Text → Text
framed name rest = length name ∷ name ++ rest

unframed : {A : Type 0} → (Text → Text → A) → Text → Result A
unframed make [] = err (foreign 0)
unframed make (n ∷ b) = ok (make (take n b) (drop n b))

unframed-framed :
    {A : Type 0} (make : Text → Text → A) (name rest : Text)
    → unframed make (framed name rest) ≡ ok (make name rest)
unfolding unframed framed
unframed-framed make name rest = rw (take-append name rest, drop-append name rest) refl

policies : Codec Policy
unfolding framed unframed
policies = record {
  marshal = λ p. ok (framed p.name p.rest);
  unmarshal = unframed (λ name rest. record { name = name; rest = rest });
}

policies-IsCodec : IsCodec policies
unfolding policies
policies-IsCodec = record {
  reads_back = λ p b h. ground (
    arith,
    unframed-framed {A = Policy} (λ name rest. record { name = name; rest = rest }) p.name p.rest,
  );
}

instances : Codec Instance
unfolding framed unframed
instances = record {
  marshal = λ p. ok (framed p.public_id p.rest);
  unmarshal = unframed (λ name rest. record { public_id = name; rest = rest });
}

instances-IsCodec : IsCodec instances
unfolding instances
instances-IsCodec = record {
  reads_back = λ p b h. ground (
    arith,
    unframed-framed {A = Instance} (λ name rest. record { public_id = name; rest = rest })
        p.public_id p.rest,
  );
}

templates : Codec Template
unfolding framed unframed
templates = record {
  marshal = λ p. ok (framed p.template_id p.rest);
  unmarshal = unframed (λ name rest. record { template_id = name; rest = rest });
}

templates-IsCodec : IsCodec templates
unfolding templates
templates-IsCodec = record {
  reads_back = λ p b h. ground (
    arith,
    unframed-framed {A = Template} (λ name rest. record { template_id = name; rest = rest })
        p.template_id p.rest,
  );
}

abbrev store : List Text → Memory
store [] = []
store (id ∷ ids) = (id, 1 ∷ id) ∷ store ids

abbrev strict : Policy
strict = record { name = codes "p"; rest = codes "r" }

get_policy-put_policy_example :
    get_policy (memory []) policies (codes "p") (put_policy (memory []) policies (some strict) []).1
    ≡ (elim (put_policy (memory []) policies (some strict) []).0 [
      | ok u ↦ ok strict
      | err e ↦ get_policy (memory []) policies (codes "p") []
    ])
get_policy-put_policy_example =
    get_policy-put_policy (memory []) policies held (memory-IsStorage []) (memory-IsSteady [])
      policies-IsCodec strict [] (codes "p")

get_policy-delete_policy_example :
    ((delete_policy (memory []) policies (codes "p") (store (codes "p" ∷ []))).0 ≡ ok tt)
    × ((j : Text)
        → get_policy
            (memory [])
            policies
            j
            (delete_policy (memory []) policies (codes "p") (store (codes "p" ∷ []))).1
          ≡ (if codes "p" == j
              then err (new policy_not_found)
              else get_policy (memory []) policies j (store (codes "p" ∷ []))))
unfolding lookup
get_policy-delete_policy_example =
    get_policy-delete_policy (memory []) policies held (memory-IsStorage []) (memory-IsSteady [])
      policies-IsCodec (codes "p") (store (codes "p" ∷ []))

abbrev token : Instance
token = record { public_id = codes "i"; rest = codes "r" }

get_provider_instance-put_provider_instance_example :
    get_provider_instance
      (memory [])
      instances
      (codes "i")
      (put_provider_instance (memory []) instances (some token) []).1
    ≡ (elim (put_provider_instance (memory []) instances (some token) []).0 [
      | ok u ↦ ok token
      | err e ↦ get_provider_instance (memory []) instances (codes "i") []
    ])
get_provider_instance-put_provider_instance_example =
    get_provider_instance-put_provider_instance (memory []) instances held (memory-IsStorage [])
      (memory-IsSteady []) instances-IsCodec token [] (codes "i")

get_provider_instance-delete_provider_instance_example :
    ((delete_provider_instance (memory []) instances (codes "i") (store (codes "i" ∷ []))).0
      ≡ ok tt)
    × ((j : Text)
        → get_provider_instance
            (memory [])
            instances
            j
            (delete_provider_instance (memory []) instances (codes "i") (store (codes "i" ∷ []))).1
          ≡ (if codes "i" == j
              then err (new provider_not_found)
              else get_provider_instance (memory []) instances j (store (codes "i" ∷ []))))
unfolding lookup
get_provider_instance-delete_provider_instance_example =
    get_provider_instance-delete_provider_instance (memory []) instances held (memory-IsStorage [])
      (memory-IsSteady []) instances-IsCodec (codes "i") (store (codes "i" ∷ []))

abbrev aes : Template
aes = record { template_id = codes "a"; rest = codes "r" }

-- The scope is a byte that the id of a template begins with.
abbrev matching : Template → Option ℕ → Result Bool
matching t none = ok true
matching t (some n) = ok (t.template_id == n ∷ [])

registered :
    register (memory []) templates (some aes) []
    ≡ (ok tt, (register (memory []) templates (some aes) []).1)
unfolding register put_value memory templates
registered = refl

get-register_example :
    (aes.template_id ≢ [])
    × ((j : Text)
        → get (memory []) templates j (register (memory []) templates (some aes) []).1
          ≡ (if aes.template_id == j then ok aes else get (memory []) templates j []))
    × (select
          (memory [])
          templates
          matching
          none
          (record { is_restricted = true; ids = aes.template_id ∷ [] })
          (register (memory []) templates (some aes) []).1
        ≡ ok aes)
get-register_example =
    get-register (memory []) templates held (memory-IsStorage []) (memory-IsSteady [])
      templates-IsCodec matching aes [] (register (memory []) templates (some aes) []).1 registered

abbrev two_ids : List Text
two_ids = codes "z" ∷ codes "a" ∷ []

select-first_match_example :
    select
      (memory [])
      templates
      matching
      (some 97)
      (record { is_restricted = true; ids = two_ids })
      (store (codes "a" ∷ []))
    ≡ chosen (
        first_match
          (λ t. t.template_id == 97 ∷ [])
          (list_ids (memory []) templates two_ids (store (codes "a" ∷ []))))
unfolding direct
select-first_match_example =
    select-first_match (memory []) templates matching (some 97)
      (record { is_restricted = true; ids = two_ids }) (store (codes "a" ∷ []))
      (λ t. t.template_id == 97 ∷ []) two_ids refl refl (λ t. refl)
