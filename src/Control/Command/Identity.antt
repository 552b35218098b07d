-- ===== src/Control/Command/Identity.antt =====
-- What the digest of a command tells apart.
use clash_nyanpasu_service.Shared.{◌≡◌, ◌≢◌, refl, ◌⊎◌, inl, inr, codes, arith}
use clash_nyanpasu_service.Control.OperationId.{hex, hex_digit}
use clash_nyanpasu_service.Control.Digest.{payload_digest, hash_bytes}
use clash_nyanpasu_service.Control.Command.{
  CoreCommand, ReconcileRequest, reconcile, stop, recover, shutdown, identity, request_identity,
  command_digest,
}

-- No two of the commands without a payload have one digest.
pub digests-distinct :
    (command_digest stop ≢ command_digest recover)
    × (command_digest stop ≢ command_digest shutdown)
    × (command_digest recover ≢ command_digest shutdown)
unfolding command_digest identity payload_digest hash_bytes hex hex_digit codes
digests-distinct =
    (λ e. absurd (ground arith), λ e. absurd (ground arith), λ e. absurd (ground arith))

-- What is digested tells the commands apart: two commands with one identity are the same command,
-- or both are reconciles.
pub identity-kind :
    (c d : CoreCommand)
    → identity c ≡ identity d
    → (c ≡ d) ⊎ ((r s : ReconcileRequest) × (c ≡ reconcile r) × (d ≡ reconcile s))
unfolding identity request_identity codes
identity-kind (reconcile r) (reconcile s) e = inr (r, s, refl, refl)
identity-kind stop stop e = inl refl
identity-kind recover recover e = inl refl
identity-kind shutdown shutdown e = inl refl
identity-kind _ _ e = absurd (ground arith)
