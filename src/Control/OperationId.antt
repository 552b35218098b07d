-- ===== src/Control/OperationId.antt =====
-- `OperationId` and its text form: `Display` and `FromStr` of
-- crates/nyanpasu-core-manager/src/control/mod.rs. Strings are their bytes; the fields are a `u64` and
-- two `u32`, so `InRange` holds of every value that the program can build.
pub mod Hex
pub mod RoundTrip
mod Tests
use Prim.Native.Nat.{◌+◌, ◌-◌, ◌*◌, ◌/◌, ◌%◌}
use clash_nyanpasu_service.Shared.{
  ℕ, zero, suc, ◌^◌, ◌<◌, Bytes, Bool, true, ◌&&◌, ◌||◌, not, Option, none, some, List, [], ◌∷◌,
  ◌++◌, if◌then◌else◌, leb, ltb, ◌==◌, length, ◌≡◌, ◌↔◌, arith,
}
use clash_nyanpasu_service.Shared.Assoc.{Eq}

pub record OperationId : Type 0 where
  pub nanos : ℕ
  pub pid : ℕ
  pub counter : ℕ

pub record InRange (id : OperationId) : Type 0 where
  pub nanos_bound : id.nanos < 16 ^ 16
  pub pid_bound : id.pid < 16 ^ 8
  pub counter_bound : id.counter < 16 ^ 8

-- A lowercase hexadecimal digit.
unfoldable pub hex_digit : ℕ → ℕ
hex_digit d = if ltb d 10 then d + 48 else d + 87

-- `{:0w$x}` of a number below 16 ^ w: exactly w digits.
unfoldable pub hex : ℕ → ℕ → Bytes
hex zero n = []
hex (suc w) n = hex w (n / 16) ++ hex_digit (n % 16) ∷ []

-- The `Display` of an operation id.
pub display : OperationId → Bytes
display id = hex 16 id.nanos ++ (b'-' ∷ (hex 8 id.pid ++ (b'-' ∷ hex 8 id.counter)))

-- `str::split_once` at a byte.
pub split_once : ℕ → Bytes → Option (Bytes × Bytes)
split_once c [] = none
split_once c (b ∷ bs) =
    let rest = split_once c bs in
    if b == c then some ([], bs) else elim rest [ none ↦ none | some (l, r) ↦ some (b ∷ l, r) ]

-- `char::to_digit(16)`.
pub to_digit : ℕ → Option ℕ
to_digit c =
    if leb b'0' c && leb c b'9'
    then some (c - 48)
    else if leb b'a' c && leb c b'f'
    then some (c - 87)
    else if leb b'A' c && leb c b'F'
    then some (c - 55)
    else none

-- The digits of `from_str_radix(_, 16)`, with the overflow check against the type's bound.
pub parse_digits : ℕ → ℕ → Bytes → Option ℕ
parse_digits limit acc [] = some acc
parse_digits limit acc (c ∷ cs) = elim (to_digit c) [
  | none ↦ none
  | some d ↦ if ltb (acc * 16 + d) limit then parse_digits limit (acc * 16 + d) cs else none
]

unsigned : ℕ → Bytes → Option ℕ
unsigned limit [] = none
unsigned limit (c ∷ cs) = parse_digits limit 0 (c ∷ cs)

-- An unsigned type's `from_str_radix(_, 16)`: one leading `+` is accepted, no digits are refused.
pub from_str_radix : ℕ → Bytes → Option ℕ
unfolding unsigned
from_str_radix limit [] = none
from_str_radix limit (c ∷ cs) =
    if c == b'+' then unsigned limit cs else parse_digits limit 0 (c ∷ cs)

pub is_id_byte : ℕ → Bool
is_id_byte b = b == b'-' || leb b'0' b && leb b b'9' || leb b'a' b && leb b b'f'

pub all_bytes : (ℕ → Bool) → Bytes → Bool
all_bytes p [] = true
all_bytes p (b ∷ bs) = p b && all_bytes p bs

-- The checks of `from_str` on the three parts, before any of them is read as a number.
pub well_formed : Bytes → Bytes → Bytes → Bytes → Bool
well_formed value nanos pid counter =
    length nanos == 16 && length pid == 8 && length counter == 8 && all_bytes is_id_byte value

build : Option ℕ → Option ℕ → Option ℕ → Option OperationId
build (some n) (some p) (some c) = some (record { nanos = n; pid = p; counter = c })
build _ _ _ = none

parse_parts : Bytes → Bytes → Bytes → Bytes → Option OperationId
parse_parts value nanos pid counter =
    if well_formed value nanos pid counter
    then build (from_str_radix (2 ^ 64) nanos) (from_str_radix (2 ^ 32) pid)
        (from_str_radix (2 ^ 32) counter)
    else none

-- `OperationId::from_str`; the one error value is `none`.
pub from_str : Bytes → Option OperationId
from_str value = elim (split_once b'-' value) [
  | none ↦ none
  | some (nanos, rest) ↦ elim (split_once b'-' rest) [
    | none ↦ none
    | some (pid, counter) ↦ parse_parts value nanos pid counter
  ]
]

-- The derived equality of two ids, on their bytes.
unfoldable pub id_eq : OperationId → OperationId → Bool
id_eq a b = a.nanos == b.nanos && (a.pid == b.pid && a.counter == b.counter)

pub id_eq_iff : (a b : OperationId) → (id_eq a b ≡ true) ↔ (a ≡ b)
unfolding id_eq
id_eq_iff a b = ground arith

instance abbrev pub id_key : Eq OperationId
id_key = record { beq = id_eq; beq_iff = id_eq_iff }
