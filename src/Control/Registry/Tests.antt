-- ===== src/Control/Registry/Tests.antt =====
-- Eviction in a small registry: one operation has ended, one runs, and the capacity is two.
use clash_nyanpasu_service.Shared.{ℕ, ◌<◌, ◌≡◌, refl, ◌⊎◌, codes, [], ◌∷◌, length}
use clash_nyanpasu_service.Shared.Assoc.{lookup}
use clash_nyanpasu_service.Control.OperationId.{OperationId, id_eq, id_key}
use clash_nyanpasu_service.Control.Command.{OperationState, running, succeeded, stopped}
use clash_nyanpasu_service.Control.Registry.{RegisteredOperation, Registry, evict}
use clash_nyanpasu_service.Control.Registry.Live.{Coherent, live_count}
use clash_nyanpasu_service.Control.Registry.Evict.{Evicts, evict-Evicts}

abbrev ran : OperationId
ran = record { nanos = 1; pid = 7; counter = 0 }

abbrev runs : OperationId
runs = record { nanos = 2; pid = 7; counter = 1 }

abbrev entry : ℕ → OperationState → RegisteredOperation
entry n state = record { digest = codes "00"; sequence = n; state = state }

abbrev two : Registry
two = record {
  operations = (runs, entry 1 running) ∷ (ran, entry 0 (succeeded stopped)) ∷ [];
  order = runs ∷ ran ∷ [];
  next_sequence = 2;
  capacity = 2;
}

two-Coherent : Coherent two
unfolding lookup id_eq
two-Coherent = record { order_keys = refl; distinct = (refl, (refl, tt)) }

evict-Evicts_example :
    Evicts two (evict two)
    × ((length (evict two).operations < 2)
        ⊎ (live_count two.operations ≡ length (evict two).operations))
evict-Evicts_example = evict-Evicts two two-Coherent
