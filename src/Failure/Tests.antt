-- ===== src/Failure/Tests.antt =====
-- Kinds and their spellings on concrete failures.
use clash_nyanpasu_service.Shared.{◌≡◌, ◌↔◌, codes, some}
use clash_nyanpasu_service.Failure.{CoreErrorKind, from_wire, as_str}
use clash_nyanpasu_service.Failure.Wire.{from_wire_iff}

from_wire_iff_example :
    (from_wire (codes "apply_failed") ≡ some CoreErrorKind.apply_failed)
    ↔ (as_str CoreErrorKind.apply_failed ≡ codes "apply_failed")
from_wire_iff_example = from_wire_iff (codes "apply_failed") CoreErrorKind.apply_failed
