-- ===== src/Grpc/Status.antt =====
-- internal/grpc/status/status.go and internal/grpc/authz/authz.go: how an error reaches a caller.
use citius_server.Prelude.{ℕ, Bool, if◌then◌else◌, Text, codes}
use citius_server.Errors.{Error, Result, ok, err, new, wrap, policy_violation, unauthenticated}

-- A gRPC status error.
pub record Status : Type 0 where
  pub code : ℕ
  pub message : Text

-- citius-core's errors: whether `errors.As` finds a domain error, its `GRPCCode`, and the message of
-- the outermost one.
pub record Vocabulary : Type 0 where
  pub is_domain : Error → Bool
  pub grpc_code : Error → ℕ
  pub message : Error → Text

-- `codes.Internal`
abbrev pub internal_code : ℕ
internal_code = 13

abbrev pub internal_error_message : Text
internal_error_message = codes "internal error"

-- `ToStatusError` of an error that is not nil.
unfoldable pub to_status_error : Vocabulary → Error → Status
to_status_error v e =
    if v.is_domain e
    then record { code = v.grpc_code e; message = v.message e }
    else record { code = internal_code; message = internal_error_message }

-- `translate`, for an authorization whose error may be forbidden, unauthenticated or another.
unfoldable pub translate :
    (is_forbidden is_unauthenticated : Error → Bool) → Result (Unit {0}) → Result (Unit {0})
translate is_forbidden is_unauthenticated (ok u) = ok u
translate is_forbidden is_unauthenticated (err e) =
    if is_forbidden e
    then err (new policy_violation)
    else if is_unauthenticated e
    then err (new unauthenticated)
    else err (wrap e)

-- What an RPC returns.
pub data Reply (A : Type 0) : Type 0 where
  replied : A → Reply A
  failed : Status → Reply A

-- An RPC that runs in a world of services outside the handlers.
abbrev pub Rpc : Type 0 → Type 0 → Type 0
Rpc W A = W → Reply A × W

module _ {W : Type 0} (v : Vocabulary) where
  -- `if err := h.authorizeKey(ctx, op, name); err != nil { return nil, ToStatusError(err) }`
  abbrev pub authorized : {A : Type 0} → Result (Unit {0}) → Rpc W A → Rpc W A
  authorized (ok u) rpc w = rpc w
  authorized (err e) rpc w = (failed (to_status_error v e), w)

  abbrev answered : {A B : Type 0} → (B → Rpc W A) → Result B × W → Reply A × W
  answered rpc (ok b, w) = rpc b w
  answered rpc (err e, w) = (failed (to_status_error v (wrap e)), w)

  -- A call that may fail, whose error is wrapped for the caller.
  abbrev pub call : {A B : Type 0} → (W → Result B × W) → (B → Rpc W A) → Rpc W A
  call m rpc w = answered rpc (m w)
