-- ===== src/Software/Calm.antt =====
-- No operation of the software provider panics.
use citius_server.Prelude.{◌≤◌, length}
use citius_server.Software.Outcome.{NoPanic, >>=-NoPanic}
use citius_server.Software.Types.{
  Request, generate_key_request, sign_request, verify_request, sign_digest_request,
  verify_digest_request, encrypt_request, decrypt_request,
}
use citius_server.Software.Library.{Core, IsCore, Ciphers, IsCiphers, max_plaintext}
use citius_server.Software.Signers.{Signers, IsSigners, IsCalm}
use citius_server.Software.Encoding.{validate_request, validate_digest_length}
use citius_server.Software.Provider.{
  generate_key, sign, verify, sign_digest, verify_digest, encrypt, decrypt,
}
use citius_server.Software.ByAlgorithm.{
  validate_request-NoPanic, validate_digest_length-NoPanic, generate-NoPanic, sign_by-NoPanic,
  verify_by-NoPanic, sign_digest_by-NoPanic, verify_digest_by-NoPanic, encrypt_by-NoPanic,
  decrypt_by-NoPanic,
}

-- The parameters of the provider, with what it relies on.
module _ (k : Core) (core : IsCore k) {Random : Type 0} (x : Ciphers Random) (ciphers : IsCiphers x)
    (y : Signers Random) (signers : IsSigners y) (calm : IsCalm y) where
  -- The operation that a request is made to returns.
  abbrev pub Returns : Request k.Output → Random → Type 0
  Returns (generate_key_request alg) ρ = NoPanic (generate_key k x y alg ρ)
  Returns (sign_request r) ρ = NoPanic (sign k x y r ρ)
  Returns (verify_request r) ρ = NoPanic (verify k x y r)
  Returns (sign_digest_request r) ρ = NoPanic (sign_digest k x y r ρ)
  Returns (verify_digest_request r) ρ = NoPanic (verify_digest k x y r)
  Returns (encrypt_request r) ρ = NoPanic (encrypt k x y r ρ)
  Returns (decrypt_request r) ρ = NoPanic (decrypt k x y r)

  -- A plaintext to encrypt is not longer than the ciphers take.
  abbrev pub FitsCiphers : Request k.Output → Type 0
  FitsCiphers (encrypt_request r) = length r.plaintext ≤ max_plaintext
  FitsCiphers _ = Unit

  -- Every operation of the software provider, for any request with a plaintext of at most 2 ^ 32 bytes
  -- and whatever the validator accepts, returns a response or an error: no call of a library, no
  -- index, slice or allocation panics. Of the libraries it is assumed that they panic only on a nonce
  -- or IV of the wrong length, on a text that is not made of whole blocks, on a plaintext above that
  -- bound, on a number that does not fit its buffer, and, for ML-DSA, on a context of more than 255
  -- bytes or a key of another scheme.
  pub operations_return : (r : Request k.Output) (ρ : Random) → FitsCiphers r → Returns r ρ
  unfolding generate_key sign verify sign_digest verify_digest encrypt decrypt
  operations_return (generate_key_request alg) ρ fits =
      >>=-NoPanic (validate_request k (generate_key_request alg)) _
        (validate_request-NoPanic k core x ciphers y signers calm _)
        λ u e. generate-NoPanic k core x ciphers y signers calm alg ρ
  operations_return (sign_request r) ρ fits =
      >>=-NoPanic (validate_request k (sign_request r)) _
        (validate_request-NoPanic k core x ciphers y signers calm _)
        λ u e. sign_by-NoPanic k core x ciphers y signers calm r.algorithm r ρ
  operations_return (verify_request r) ρ fits =
      >>=-NoPanic (validate_request k (verify_request r)) _
        (validate_request-NoPanic k core x ciphers y signers calm _)
        λ u e. verify_by-NoPanic k core x ciphers y signers calm r.algorithm r
  operations_return (sign_digest_request r) ρ fits =
      >>=-NoPanic (validate_request k (sign_digest_request r)) _
        (validate_request-NoPanic k core x ciphers y signers calm _)
        λ u e.
          >>=-NoPanic (validate_digest_length k r.hash_algorithm (length r.digest)) _
            (validate_digest_length-NoPanic k core x ciphers y signers calm _ _)
            λ u2 e2. sign_digest_by-NoPanic k core x ciphers y signers calm r.algorithm r ρ
  operations_return (verify_digest_request r) ρ fits =
      >>=-NoPanic (validate_request k (verify_digest_request r)) _
        (validate_request-NoPanic k core x ciphers y signers calm _)
        λ u e.
          >>=-NoPanic (validate_digest_length k r.hash_algorithm (length r.digest)) _
            (validate_digest_length-NoPanic k core x ciphers y signers calm _ _)
            λ u2 e2. verify_digest_by-NoPanic k core x ciphers y signers calm r.algorithm r
  operations_return (encrypt_request r) ρ fits =
      >>=-NoPanic (validate_request k (encrypt_request r)) _
        (validate_request-NoPanic k core x ciphers y signers calm _)
        λ u e. encrypt_by-NoPanic k core x ciphers y signers calm r.algorithm r ρ fits
  operations_return (decrypt_request r) ρ fits =
      >>=-NoPanic (validate_request k (decrypt_request r)) _
        (validate_request-NoPanic k core x ciphers y signers calm _)
        λ u e. decrypt_by-NoPanic k core x ciphers y signers calm r.algorithm r
