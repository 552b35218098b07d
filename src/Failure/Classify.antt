-- ===== src/Failure/Classify.antt =====
-- What `Error::kind` says of the durability wrapper, and how it meets retryability.
use clash_nyanpasu_service.Shared.{◌≡◌, refl, Bytes, false, some, List, [], ◌∷◌, arith}
use clash_nyanpasu_service.Failure.{CoreErrorKind, Error, kind, default_retryable}

-- A failure under any number of durability warnings, the outermost first.
abbrev pub wrap : Error → List Bytes → Error
wrap e [] = e
wrap e (w ∷ ws) = Error.durability_uncertain (wrap e ws) w

-- However often a failure is wrapped in durability warnings, it keeps the kind of the failure
-- inside.
pub kind-wrap : (e : Error) (ws : List Bytes) → kind (wrap e ws) ≡ kind e
unfolding kind
kind-wrap e [] = refl
kind-wrap e (w ∷ ws) = kind-wrap e ws

-- No domain failure has a kind that is retryable by default.
pub kind-not_retryable :
    (e : Error) {k : CoreErrorKind} → kind e ≡ some k → default_retryable k ≡ false
unfolding kind default_retryable
kind-not_retryable (Error.durability_uncertain source w) h = kind-not_retryable source h
kind-not_retryable _ h = ground arith
