-- ===== src/Control/OperationId/Hex.antt =====
-- The digits of a number: reading them back, and writing back what was read.
use Prim.Native.Nat.{◌+◌, ◌*◌, ◌/◌, ◌%◌}
use native.Mathlib.Nat.{pow-suc, add-zero}
use clash_nyanpasu_service.Shared.{
  ℕ, zero, suc, ◌≡◌, refl, ap, ◌∙◌, ◌^◌, ◌≤◌, ◌<◌, ◌≢◌, ◌⊎◌, inl, inr, Bytes, some, [], ◌∷◌, ◌++◌,
  ltb, length, length-append, arith, Bool-cases, Option-cases, All, All-append, append-nil,
  append_assoc,
}
use clash_nyanpasu_service.Control.OperationId.{
  hex_digit, hex, to_digit, parse_digits, from_str_radix,
}

-- A lowercase hexadecimal digit, as a byte.
abbrev pub IsHexByte : ℕ → Type 0
IsHexByte c = ((b'0' ≤ c) × (c ≤ b'9')) ⊎ ((b'a' ≤ c) × (c ≤ b'f'))

pub hex_digit-IsHexByte : (d : ℕ) → d < 16 → IsHexByte (hex_digit d)
unfolding hex_digit
hex_digit-IsHexByte d h = ground arith

pub hex-IsHexByte : (w n : ℕ) → All IsHexByte (hex w n)
unfolding hex
hex-IsHexByte zero n = tt
hex-IsHexByte (suc w) n =
    All-append IsHexByte (hex w (n / 16)) _ (hex-IsHexByte w (n / 16))
      (hex_digit-IsHexByte (n % 16) (omega arith), tt)

pub length-hex : (w n : ℕ) → length (hex w n) ≡ w
unfolding hex
length-hex zero n = refl
length-hex (suc w) n =
    omega (arith, length-append (hex w (n / 16)) (hex_digit (n % 16) ∷ []), length-hex w (n / 16))

to_digit-hex_digit : (d : ℕ) → d < 16 → to_digit (hex_digit d) ≡ some d
unfolding to_digit hex_digit
to_digit-hex_digit d h = ground arith

hex_digit-to_digit : (c d : ℕ) → IsHexByte c → to_digit c ≡ some d → (hex_digit d ≡ c) × (d < 16)
unfolding to_digit hex_digit
hex_digit-to_digit c d h e = ground arith

parse_digits-append :
    (limit acc : ℕ) (xs ys : Bytes) {v : ℕ}
    → parse_digits limit acc xs ≡ some v
    → parse_digits limit acc (xs ++ ys) ≡ parse_digits limit v ys
unfolding parse_digits
parse_digits-append limit acc [] ys h = ground arith
parse_digits-append limit acc (c ∷ cs) ys h = elim (Option-cases (to_digit c)) [
  | inl e ↦ ground arith
  | inr (d, e) ↦ elim (Bool-cases (ltb (acc * 16 + d) limit)) [
    | inl t ↦
        rw (e, parse_digits, t) (parse_digits-append limit (acc * 16 + d) cs ys (ground arith))
    | inr t ↦ ground arith
  ]
]

pub parse_digits-hex :
    (limit w n : ℕ) → n < 16 ^ w → 16 ^ w ≤ limit → parse_digits limit 0 (hex w n) ≡ some n
unfolding hex parse_digits
parse_digits-hex limit zero n h k = ground arith
parse_digits-hex limit (suc w) n h k =
    parse_digits-append limit 0 (hex w (n / 16)) (hex_digit (n % 16) ∷ []) (
      parse_digits-hex limit w (n / 16) (omega (arith, pow-suc 16 w)) (omega (arith, pow-suc 16 w)))
    ∙ ground (arith, to_digit-hex_digit (n % 16))

-- One digit read is one digit written.
hex-step :
    (k acc c d : ℕ) (cs : Bytes)
    → IsHexByte c
    → to_digit c ≡ some d
    → hex (suc k) (acc * 16 + d) ++ cs ≡ hex k acc ++ c ∷ cs
unfolding hex
hex-step k acc c d cs b e =
    let (same, small) = hex_digit-to_digit c d b e in
    let high : (acc * 16 + d) / 16 ≡ acc = omega arith in
    let low : (acc * 16 + d) % 16 ≡ d = omega arith in
    rw (high, low, same) (append_assoc (hex k acc) (c ∷ []) cs)

pub hex-parse_digits :
    (limit k acc : ℕ) (cs : Bytes) {v : ℕ}
    → All IsHexByte cs
    → parse_digits limit acc cs ≡ some v
    → hex (k + length cs) v ≡ hex k acc ++ cs
unfolding parse_digits
hex-parse_digits limit k acc [] a h = cc (add-zero k, append-nil (hex k acc))
hex-parse_digits limit k acc (c ∷ cs) {v} a h = elim (Option-cases (to_digit c)) [
  | inl e ↦ absurd (ground arith)
  | inr (d, e) ↦ elim (Bool-cases (ltb (acc * 16 + d) limit)) [
    | inl t ↦
        let rest : parse_digits limit (acc * 16 + d) cs ≡ some v = ground arith in
        let size : k + suc (length cs) ≡ suc k + length cs = omega arith in
        ap (λ w. hex w v) size
        ∙ hex-parse_digits limit (suc k) (acc * 16 + d) cs a.1 rest
        ∙ hex-step k acc c d cs a.0 e
    | inr t ↦ absurd (ground arith)
  ]
]

pub parse_digits-lt :
    (limit acc : ℕ) (cs : Bytes) {v : ℕ}
    → acc < limit
    → parse_digits limit acc cs ≡ some v
    → v < limit
unfolding parse_digits
parse_digits-lt limit acc [] h e = ground arith
parse_digits-lt limit acc (c ∷ cs) {v} h e = elim (Option-cases (to_digit c)) [
  | inl none' ↦ absurd (ground arith)
  | inr (d, some') ↦ elim (Bool-cases (ltb (acc * 16 + d) limit)) [
    | inl t ↦ parse_digits-lt limit (acc * 16 + d) cs (ground arith) (ground arith)
    | inr t ↦ absurd (ground arith)
  ]
]

from_str_radix-plain :
    (limit : ℕ) (cs : Bytes)
    → All IsHexByte cs
    → cs ≢ []
    → from_str_radix limit cs ≡ parse_digits limit 0 cs
unfolding from_str_radix
from_str_radix-plain limit [] a h = absurd (h refl)
from_str_radix-plain limit (c ∷ cs) a h = ground arith

-- A number that fits is read back from its digits.
pub from_str_radix-hex :
    (limit w n : ℕ)
    → n < 16 ^ suc w
    → 16 ^ suc w ≤ limit
    → from_str_radix limit (hex (suc w) n) ≡ some n
from_str_radix-hex limit w n h k =
    from_str_radix-plain limit (hex (suc w) n) (hex-IsHexByte (suc w) n)
      (λ e. absurd (omega (arith, ap length e, length-hex (suc w) n)))
    ∙ parse_digits-hex limit (suc w) n h k

-- Lowercase digits that are read as a number are the digits of that number, which fits.
pub hex-from_str_radix :
    (limit : ℕ) (cs : Bytes) {v : ℕ}
    → 0 < limit
    → All IsHexByte cs
    → from_str_radix limit cs ≡ some v
    → (hex (length cs) v ≡ cs) × (v < limit)
unfolding from_str_radix hex
hex-from_str_radix limit [] p a h = absurd (ground arith)
hex-from_str_radix limit (c ∷ cs) {v} p a h =
    let plain : parse_digits limit 0 (c ∷ cs) ≡ some v = ground arith in
    let size : suc (length cs) ≡ 0 + suc (length cs) = omega arith in
    (
      ap (λ w. hex w v) size ∙ hex-parse_digits limit 0 0 (c ∷ cs) a plain,
      parse_digits-lt limit 0 (c ∷ cs) p plain,
    )
