-- ===== src/Failure/Wire.antt =====
-- The wire spelling of `CoreErrorKind`: `as_str` and `from_wire` undo one another.
use clash_nyanpasu_service.Shared.{
  ◌≡◌, refl, ◌↔◌, inl, inr, Bytes, bytes_eq, bytes_eq_iff, Bool-cases, some, List, [], ◌∷◌, arith,
}
use clash_nyanpasu_service.Failure.{CoreErrorKind, as_str, all_kinds, find_kind, from_wire}

-- A kind that is found is spelled like the value that was looked for.
find_kind_sound :
    (value : Bytes) (ks : List CoreErrorKind) {k : CoreErrorKind}
    → find_kind value ks ≡ some k
    → as_str k ≡ value
unfolding find_kind
find_kind_sound value [] h = cc
find_kind_sound value (j ∷ ks) h = elim (Bool-cases (bytes_eq (as_str j) value)) [
  | inl e ↦ ground (arith, bytes_eq_iff (as_str j) value)
  | inr e ↦ find_kind_sound value ks (rw e at h)
]

from_wire-as_str : (k : CoreErrorKind) → from_wire (as_str k) ≡ some k
unfolding from_wire find_kind all_kinds as_str bytes_eq
from_wire-as_str CoreErrorKind.not_started = refl
from_wire-as_str _ = refl

-- A wire string names a kind exactly when it is the kind's own spelling, for each of the seventeen
-- kinds; so the spellings are pairwise distinct and every kind is listed in `ALL`.
pub from_wire_iff :
    (value : Bytes) (k : CoreErrorKind) → (from_wire value ≡ some k) ↔ (as_str k ≡ value)
unfolding from_wire
from_wire_iff value k = (find_kind_sound value all_kinds, λ e. rw (← e) (from_wire-as_str k))
