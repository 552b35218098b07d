-- ===== src/Shared/Decimal.antt =====
-- The decimal form of an unsigned integer, as `{}` writes it.
use Prim.Native.Nat.{ℕ, zero, suc, ◌+◌, ◌/◌, ◌%◌}
use mathlib.Core.List.{[], ◌∷◌, ◌++◌}
use clash_nyanpasu_service.Shared.Tests.{ltb, if◌then◌else◌}
use clash_nyanpasu_service.Shared.Text.{Bytes}

-- At most `fuel` digits; twenty are enough for a `u64`.
unfoldable pub decimal_digits : ℕ → ℕ → Bytes
decimal_digits zero n = []
decimal_digits (suc fuel) n =
    let high = decimal_digits fuel (n / 10) in
    if ltb n 10 then (n + 48) ∷ [] else high ++ (n % 10 + 48) ∷ []

unfoldable pub decimal : ℕ → Bytes
unfolding decimal_digits
decimal n = decimal_digits 20 n
