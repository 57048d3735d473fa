-- ===== src/Vault/Key/Codec.antt =====
-- Concrete libraries for the key repository: a storage in memory, an encoding, and checks that
-- pass.
use citius_server.Prelude.{
  take-append, drop-append, ◌≡◌, refl, ◌↔◌, Bool, true, false, List, [], ◌∷◌, ◌++◌, arith, length,
  take, drop, Text,
}
use citius_server.Errors.{
  Code, Error, Result, ok, err, new, wrap, foreign, key_not_found, invalid_argument, already_exists,
  policy_not_found, template_not_found, provider_not_found, policy_violation, unauthenticated,
  not_implemented, internal, IsKeyNotFoundTest,
}
use citius_server.Vault.Storage.{IsSteady, IsListing}
use citius_server.Vault.Memory.{
  memory-IsSteady, memory-IsListing, Memory, memory, memory-IsStorage, held,
}
use citius_server.Vault.Key.Types.{Key, Version, Libraries}
use citius_server.Vault.Key.Spec.{IsLibraries}

encode_key : Key → Text
encode_key k =
    length k.public_id
    ∷ length k.name
    ∷ k.current_version
    ∷ k.create_time
    ∷ k.update_time
    ∷ (k.public_id ++ (k.name ++ k.rest))

decode_key : Text → Result Key
decode_key (n ∷ m ∷ v ∷ c ∷ u ∷ b) = ok (record {
  public_id = take n b;
  name = take m (drop n b);
  current_version = v;
  create_time = c;
  update_time = u;
  rest = drop m (drop n b);
})
decode_key b = err (foreign 0)

encode_version : Version → Text
encode_version v = length v.key_id ∷ v.version ∷ v.create_time ∷ v.update_time ∷ v.key_id ++ v.rest

decode_version : Text → Result Version
decode_version (n ∷ v ∷ c ∷ u ∷ b) =
    ok
      (record { key_id = take n b; version = v; create_time = c; update_time = u; rest = drop n b })
decode_version b = err (foreign 0)

decode-encode_key : (k : Key) → decode_key (encode_key k) ≡ ok k
unfolding decode_key encode_key
decode-encode_key k =
    rw
      (
        take-append k.public_id (k.name ++ k.rest),
        drop-append k.public_id (k.name ++ k.rest),
        take-append k.name k.rest,
        drop-append k.name k.rest,
      )
      refl

decode-encode_version : (v : Version) → decode_version (encode_version v) ≡ ok v
unfolding decode_version encode_version
decode-encode_version v = rw (take-append v.key_id v.rest, drop-append v.key_id v.rest) refl

is_not_found : Code → Bool
is_not_found key_not_found = true
is_not_found policy_not_found = false
is_not_found invalid_argument = false
is_not_found already_exists = false
is_not_found template_not_found = false
is_not_found provider_not_found = false
is_not_found policy_violation = false
is_not_found unauthenticated = false
is_not_found not_implemented = false
is_not_found internal = false

unfoldable pub not_found_code : Error → Bool
unfolding is_not_found
not_found_code (new c) = is_not_found c
not_found_code (wrap e) = not_found_code e
not_found_code (foreign n) = false

not_found_code-lem : (c : Code) → (not_found_code (new c) ≡ true) ↔ (c ≡ key_not_found)
unfolding not_found_code
not_found_code-lem key_not_found = (λ _. refl, λ _. refl)
not_found_code-lem policy_not_found = ((λ h. cc), (λ h. cc))
not_found_code-lem invalid_argument = ((λ h. cc), (λ h. cc))
not_found_code-lem already_exists = ((λ h. cc), (λ h. cc))
not_found_code-lem template_not_found = ((λ h. cc), (λ h. cc))
not_found_code-lem provider_not_found = ((λ h. cc), (λ h. cc))
not_found_code-lem policy_violation = ((λ h. cc), (λ h. cc))
not_found_code-lem unauthenticated = ((λ h. cc), (λ h. cc))
not_found_code-lem not_implemented = ((λ h. cc), (λ h. cc))
not_found_code-lem internal = ((λ h. cc), (λ h. cc))

pub not_found_code-IsKeyNotFoundTest : IsKeyNotFoundTest not_found_code
unfolding not_found_code
not_found_code-IsKeyNotFoundTest = record { of_new = not_found_code-lem; of_wrap = λ e. refl }

-- A storage that refuses to write at some keys.
unfoldable pub libraries : List Text → Libraries Memory
unfolding encode_key decode_key encode_version decode_version
libraries refused = record {
  storage = memory refused;
  marshal_key = λ k. ok (encode_key k);
  unmarshal_key = decode_key;
  marshal_version = λ v. ok (encode_version v);
  unmarshal_version = decode_version;
  vet_key = λ op k. ok tt;
  vet_version = λ op v. ok tt;
  is_key_not_found = not_found_code;
}

decode_key_error : (b : Text) (e : Error) → decode_key b ≡ err e → not_found_code e ≡ false
unfolding decode_key not_found_code
decode_key_error [] e h = ground arith
decode_key_error (n ∷ []) e h = ground arith
decode_key_error (n ∷ m ∷ []) e h = ground arith
decode_key_error (n ∷ m ∷ v ∷ []) e h = ground arith
decode_key_error (n ∷ m ∷ v ∷ c ∷ []) e h = ground arith
decode_key_error (n ∷ m ∷ v ∷ c ∷ u ∷ b) e h = cc

decode_version_error : (b : Text) (e : Error) → decode_version b ≡ err e → not_found_code e ≡ false
unfolding decode_version not_found_code
decode_version_error [] e h = ground arith
decode_version_error (n ∷ []) e h = ground arith
decode_version_error (n ∷ v ∷ []) e h = ground arith
decode_version_error (n ∷ v ∷ c ∷ []) e h = ground arith
decode_version_error (n ∷ v ∷ c ∷ u ∷ b) e h = cc

pub libraries-IsLibraries : (refused : List Text) → IsLibraries (libraries refused) held
unfolding libraries
libraries-IsLibraries refused = record {
  storage = memory-IsStorage refused;
  not_found = not_found_code-IsKeyNotFoundTest;
  read_key = λ k b h. ground (arith, decode-encode_key k);
  read_version = λ v b h. ground (arith, decode-encode_version v);
  key_errors = decode_key_error;
  version_errors = decode_version_error;
}

pub libraries-IsSteady : (refused : List Text) → IsSteady (libraries refused).storage held
unfolding libraries
libraries-IsSteady = memory-IsSteady

pub libraries-IsListing : (refused : List Text) → IsListing (libraries refused).storage held
unfolding libraries
libraries-IsListing = memory-IsListing
