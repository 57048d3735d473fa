-- ===== src/Software/Sample.antt =====
-- Concrete libraries for the tests of the software provider: keys and signatures that show what they
-- are made from, and ciphers that only mark their texts.
use citius_server.Prelude.{
  ℕ, zero, suc, ◌≡◌, refl, sym, ap, subst, Bool, true, false, Option, none, some, [], ◌∷◌, arith,
  length,
}
use citius_server.Errors.{Error, new, wrap, not_implemented}
use citius_server.Software.Outcome.{Outcome, ok, err, NoPanic, ok-injective}
use citius_server.Errors.{foreign}
use citius_server.Software.Types.{Bytes, HashAlgorithm}
use citius_server.Software.Library.{Core, IsCore, Ciphers, IsCiphers}

abbrev pub fill : ℕ → ℕ → Bytes
fill zero v = []
fill (suc n) v = v ∷ fill n v

length-fill : (n v : ℕ) → length (fill n v) ≡ n
length-fill zero v = omega arith
length-fill (suc n) v = omega (arith, length-fill n v)

abbrev pub or_error : {A : Type 0} → Option A → Outcome A
or_error none = err (foreign 1)
or_error (some a) = ok a

pub or_error-NoPanic : {A : Type 0} (o : Option A) → NoPanic (or_error o)
or_error-NoPanic none = tt
or_error-NoPanic (some a) = tt

pub or_error_plain : {A : Type 0} (o : Option A) {e : Error} → or_error o ≡ err e → e ≡ foreign 1
or_error_plain none h = cc
or_error_plain (some a) h = cc

abbrev pub verdict : Bool → Outcome (Unit {0})
verdict true = ok tt
verdict false = err (foreign 2)

pub verdict-NoPanic : (b : Bool) → NoPanic (verdict b)
verdict-NoPanic true = tt
verdict-NoPanic false = tt

-- An error of a code that is not `not implemented`, under any wrapping, is none.
abbrev pub is_not_implemented_test : Error → Bool
is_not_implemented_test (new not_implemented) = true
is_not_implemented_test (new _) = false
is_not_implemented_test (wrap e) = is_not_implemented_test e
is_not_implemented_test (foreign n) = false

abbrev digest_lengths : HashAlgorithm → Option ℕ
digest_lengths HashAlgorithm.sha256 = some 32
digest_lengths HashAlgorithm.sha384 = some 48
digest_lengths HashAlgorithm.sha512 = some 64
digest_lengths _ = none

abbrev pub core : Core
core = record {
  Output = Bytes;
  no_output = λ t. [];
  no_output_unencoded = [];
  aead_output = λ nonce tag t. nonce;
  block_cipher_output = λ iv t. iv;
  aead_nonce = λ o. o;
  block_cipher_iv = λ o. o;
  is_not_implemented = is_not_implemented_test;
  digest_length_for_hash = digest_lengths;
  validator = ok (λ r. true);
}

pub core-IsCore : IsCore core
core-IsCore = record {
  aead_nonce_of = λ nonce tag t. refl;
  block_cipher_iv_of = λ iv t. refl;
  validator_made = tt;
}

abbrev unmarked : Bytes → Option Bytes
unmarked [] = none
unmarked (c ∷ s) = some s

-- The source of random bytes repeats one.
abbrev pub ciphers : Ciphers ℕ
ciphers = record {
  Block = Bytes;
  Aead = ℕ;
  read = λ n ρ. ok (fill n ρ);
  new_cipher = λ b. ok b;
  new_gcm = λ b. ok 12;
  new_gcm_with_tag_size = λ b n. ok 12;
  new_gcm_with_nonce_size = λ b n. ok n;
  new_chacha = λ b. ok 12;
  new_xchacha = λ b. ok 24;
  nonce_size = λ a. a;
  seal = λ a nonce p aad. ok (7 ∷ p);
  unseal = λ a nonce c aad. or_error (unmarked c);
  cbc_encrypt = λ b iv p. ok p;
  cbc_decrypt = λ b iv c. ok c;
  xor_key_stream = λ b iv p. ok p;
}

pub ciphers-IsCiphers : IsCiphers ciphers
ciphers-IsCiphers = record {
  length-read = λ n ρ h. subst (λ b. length b ≡ n) (ok-injective h) (length-fill n ρ);
  unseal-seal = λ a nonce p aad h. subst (λ c. or_error (unmarked c) ≡ ok p) (ok-injective h) refl;
  cbc_decrypt-encrypt = λ b iv p h.
      subst (λ (c : Bytes). (length c ≡ length p) × (ok c ≡ ok p)) (ok-injective h) (refl, refl);
  xor_key_stream_twice = λ b iv p h. sym h;
  read-NoPanic = λ n ρ. tt;
  new_cipher-NoPanic = λ b. tt;
  new_gcm-NoPanic = λ b. tt;
  new_gcm_with_tag_size-NoPanic = λ b n. tt;
  new_gcm_with_nonce_size-NoPanic = λ b n. tt;
  new_chacha-NoPanic = λ b. tt;
  new_xchacha-NoPanic = λ b. tt;
  seal-NoPanic = λ a nonce p aad h small. tt;
  unseal-NoPanic = λ a nonce c aad h. or_error-NoPanic (unmarked c);
  cbc_encrypt-NoPanic = λ b iv p h k. tt;
  cbc_decrypt-NoPanic = λ b iv c h k. tt;
  length-cbc_decrypt = λ b iv c h. ap length (sym (ok-injective h));
  xor_key_stream-NoPanic = λ b iv p h. tt;
}
