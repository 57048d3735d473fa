-- ===== src/Software/GeneratedKeys.antt =====
-- The requests that are made with a generated key, and what an operation makes of the result of a
-- scheme.
use citius_server.Prelude.{◌≡◌, sym, ap, ◌∙◌, subst, Bool, true, Text}
use citius_server.Software.Outcome.{Outcome, ok, wrapped, from_ok, wrapped-eq-ok, ok-injective}
use citius_server.Software.Types.{
  Bytes, Algorithm, HashAlgorithm, PrivateKeyEncoding, PublicKeyEncoding, SignRequest,
  VerifyRequest, SignDigestRequest, VerifyDigestRequest, GenerateKeyResponse, SignResponse,
  VerifyResponse,
}
use citius_server.Software.Library.{Core, Ciphers}
use citius_server.Software.Signers.{Signers}
use citius_server.Software.Encoding.{generated_key, signed, verified}
use citius_server.Software.Provider.{asymmetric}

module _ (k : Core) where
  -- The response for a pair of encoded halves.
  abbrev response :
      PrivateKeyEncoding → PublicKeyEncoding → Bytes × Bytes → GenerateKeyResponse k.Output
  response priv_enc pub_enc pair = record {
    public_key_bytes = pair.0;
    key_material = pair.1;
    output = k.no_output_unencoded;
    key_material_encoding = priv_enc;
    public_key_encoding = pub_enc;
  }

  pub signed-eq-ok :
      (encoding : Text) (m : Outcome Bytes) {s : SignResponse k.Output}
      → signed k encoding m ≡ ok s
      → m ≡ ok s.signature
  signed-eq-ok encoding m h = from_ok (wrapped m) h λ sig made h1.
      wrapped-eq-ok m made ∙ ap (λ (s : SignResponse k.Output). ok s.signature) (ok-injective h1)

  abbrev pub valid_response : VerifyResponse k.Output
  valid_response = record { valid = true; output = k.no_output_unencoded }

  pub verified-true : (m : Outcome Bool) → m ≡ ok true → verified k m ≡ ok valid_response
  verified-true m h = rw h

  -- A request to sign with a generated key, and one to verify with its public half.
  abbrev pub signing : Algorithm → GenerateKeyResponse k.Output → Bytes → Bytes → SignRequest
  signing alg g input context = record {
    key_material = g.key_material;
    input = input;
    algorithm = alg;
    key_material_encoding = g.key_material_encoding;
    context = context;
  }

  abbrev pub verifying :
      Algorithm
      → GenerateKeyResponse k.Output
      → Bytes
      → Bytes
      → SignResponse k.Output
      → VerifyRequest
  verifying alg g input context s = record {
    key_material = g.public_key_bytes;
    input = input;
    signature = s.signature;
    algorithm = alg;
    key_material_encoding = g.public_key_encoding;
    context = context;
  }

  abbrev pub signing_digest :
      Algorithm → GenerateKeyResponse k.Output → Bytes → HashAlgorithm → SignDigestRequest
  signing_digest alg g digest hash = record {
    key_material = g.key_material;
    digest = digest;
    hash_algorithm = hash;
    algorithm = alg;
    key_material_encoding = g.key_material_encoding;
  }

  abbrev pub verifying_digest :
      Algorithm
      → GenerateKeyResponse k.Output
      → Bytes
      → HashAlgorithm
      → SignResponse k.Output
      → VerifyDigestRequest
  verifying_digest alg g digest hash s = record {
    key_material = g.public_key_bytes;
    digest = digest;
    signature = s.signature;
    hash_algorithm = hash;
    algorithm = alg;
    key_material_encoding = g.public_key_encoding;
  }

module _ (k : Core) {Random : Type 0} (x : Ciphers Random) (y : Signers Random) where
  pub from_generated {ℓ} :
      (P : GenerateKeyResponse k.Output → Type ℓ) (alg : Algorithm) (priv_enc : PrivateKeyEncoding)
      (pub_enc : PublicKeyEncoding) (m : Outcome (Bytes × Bytes)) {g : GenerateKeyResponse k.Output}
      → ((pair : Bytes × Bytes)
          → generated_key k alg pair.0 pair.1 pub_enc ≡ ok (response k priv_enc pub_enc pair))
      → asymmetric k x y alg pub_enc m ≡ ok g
      → ((pair : Bytes × Bytes) → m ≡ ok pair → P (response k priv_enc pub_enc pair))
      → P g
  from_generated P alg priv_enc pub_enc m as_response h body = from_ok (wrapped m) h λ pair made h1.
      subst P (ok-injective (sym (as_response pair) ∙ h1)) (body pair (wrapped-eq-ok m made))
