-- ===== src/Control/OperationId/RoundTrip.antt =====
-- `from_str` and `Display` undo one another, so the text form of an id is canonical.
use Prim.Native.Nat.{◌+◌, ◌*◌}
use clash_nyanpasu_service.Shared.{
  ℕ, ◌≡◌, refl, ap, ◌∙◌, ◌^◌, ◌<◌, ◌≢◌, inl, inr, Bytes, Bool, true, ◌&&◌, Option, some, [], ◌∷◌,
  ◌++◌, length, arith, Option-cases, All, All-map,
}
use clash_nyanpasu_service.Control.OperationId.{
  OperationId, InRange, hex, display, split_once, from_str_radix, is_id_byte, all_bytes,
  well_formed, build, to_digit, parse_digits, parse_parts, from_str,
}
use clash_nyanpasu_service.Control.OperationId.Hex.{
  IsHexByte, hex-IsHexByte, length-hex, from_str_radix-hex, hex-from_str_radix,
}

-- A separator ends the part before it, when that part does not hold it.
split_once-append :
    (c : ℕ) (xs ys : Bytes) → All (λ b. b ≢ c) xs → split_once c (xs ++ c ∷ ys) ≡ some (xs, ys)
unfolding split_once
split_once-append c [] ys a = ground arith
split_once-append c (x ∷ xs) ys a = ground (arith, split_once-append c xs ys a.1, a.0)

split_once_sound : (c : ℕ) (s : Bytes) {l r : Bytes} → split_once c s ≡ some (l, r) → s ≡ l ++ c ∷ r
unfolding split_once
split_once_sound c [] h = absurd (ground arith)
split_once_sound c (b ∷ bs) {l} {r} h = elim (Option-cases (split_once c bs)) [
  | inl e ↦ ground arith
  | inr ((l', r'), e) ↦ ground (arith, split_once_sound c bs {l = l'} {r = r'} e)
]

all_bytes-append :
    (p : ℕ → Bool) (xs ys : Bytes) → all_bytes p (xs ++ ys) ≡ (all_bytes p xs && all_bytes p ys)
unfolding all_bytes
all_bytes-append p [] ys = refl
all_bytes-append p (x ∷ xs) ys = ground (arith, all_bytes-append p xs ys)

all_bytes-IsHexByte : (s : Bytes) → All IsHexByte s → all_bytes is_id_byte s ≡ true
unfolding all_bytes is_id_byte
all_bytes-IsHexByte [] a = refl
all_bytes-IsHexByte (b ∷ bs) a = ground (arith, all_bytes-IsHexByte bs a.1)

no_dash : (s : Bytes) → All IsHexByte s → All (λ b. b ≢ b'-') s
no_dash s = All-map IsHexByte (λ b. b ≢ b'-') s (λ b h. omega arith)

digit-IsHexByte : (c d : ℕ) → is_id_byte c ≡ true → to_digit c ≡ some d → IsHexByte c
unfolding is_id_byte to_digit
digit-IsHexByte c d a e = ground arith

-- The bytes that the checks allow and that are read as digits are lowercase digits.
digits-IsHexByte :
    (limit acc : ℕ) (s : Bytes) {v : ℕ}
    → all_bytes is_id_byte s ≡ true
    → parse_digits limit acc s ≡ some v
    → All IsHexByte s
unfolding all_bytes parse_digits
digits-IsHexByte limit acc [] a h = tt
digits-IsHexByte limit acc (c ∷ cs) {v} a h = elim (Option-cases (to_digit c)) [
  | inl e ↦ absurd (ground arith)
  | inr (d, e) ↦
      let rest : parse_digits limit (acc * 16 + d) cs ≡ some v = ground arith in
      (
        digit-IsHexByte c d (ground arith) e,
        digits-IsHexByte limit (acc * 16 + d) cs (ground arith) rest,
      )
]

number-IsHexByte :
    (limit : ℕ) (s : Bytes) {v : ℕ}
    → all_bytes is_id_byte s ≡ true
    → from_str_radix limit s ≡ some v
    → All IsHexByte s
unfolding all_bytes is_id_byte from_str_radix
number-IsHexByte limit [] a h = tt
number-IsHexByte limit (c ∷ cs) {v} a h =
    let plain : parse_digits limit 0 (c ∷ cs) ≡ some v = ground arith in
    digits-IsHexByte limit 0 (c ∷ cs) a plain

abbrev joined : Bytes → Bytes → Bytes → Bytes
joined n p c = n ++ (b'-' ∷ (p ++ (b'-' ∷ c)))

all_bytes-joined :
    (n p c : Bytes)
    → all_bytes is_id_byte (joined n p c)
      ≡ (all_bytes is_id_byte n && (all_bytes is_id_byte p && all_bytes is_id_byte c))
unfolding all_bytes is_id_byte
all_bytes-joined n p c =
    all_bytes-append is_id_byte n (b'-' ∷ (p ++ (b'-' ∷ c)))
    ∙ ap (λ b. all_bytes is_id_byte n && b) (all_bytes-append is_id_byte p (b'-' ∷ c))

from_str-joined :
    (n p c : Bytes)
    → All IsHexByte n
    → All IsHexByte p
    → All IsHexByte c
    → length n ≡ 16
    → length p ≡ 8
    → length c ≡ 8
    → from_str (joined n p c)
      ≡ build (from_str_radix (2 ^ 64) n) (from_str_radix (2 ^ 32) p) (from_str_radix (2 ^ 32) c)
unfolding from_str parse_parts well_formed
from_str-joined n p c hn hp hc ln lp lc = ground (
  arith,
  split_once-append b'-' n (p ++ (b'-' ∷ c)) (no_dash n hn),
  split_once-append b'-' p c (no_dash p hp),
  all_bytes-joined n p c,
  all_bytes-IsHexByte n hn,
  all_bytes-IsHexByte p hp,
  all_bytes-IsHexByte c hc,
)

-- Every id that the fields' types allow reads back from its text form.
pub from_str-display : (id : OperationId) → InRange id → from_str (display id) ≡ some id
unfolding display build
from_str-display id v =
    from_str-joined (hex 16 id.nanos) (hex 8 id.pid) (hex 8 id.counter) (hex-IsHexByte 16 id.nanos)
      (hex-IsHexByte 8 id.pid) (hex-IsHexByte 8 id.counter) (length-hex 16 id.nanos)
      (length-hex 8 id.pid) (length-hex 8 id.counter)
    ∙ cc (
      from_str_radix-hex (2 ^ 64) 15 id.nanos v.nanos_bound (omega arith),
      from_str_radix-hex (2 ^ 32) 7 id.pid v.pid_bound (omega arith),
      from_str_radix-hex (2 ^ 32) 7 id.counter v.counter_bound (omega arith),
    )

build-some :
    (n p c : Option ℕ) {id : OperationId}
    → build n p c ≡ some id
    → (n ≡ some id.nanos) × (p ≡ some id.pid) × (c ≡ some id.counter)
unfolding build
build-some n p c h = ground arith

-- One accepted part is the digits of its number.
part-digits :
    (limit w : ℕ) (s : Bytes) {v : ℕ}
    → 0 < limit
    → length s ≡ w
    → all_bytes is_id_byte s ≡ true
    → from_str_radix limit s ≡ some v
    → (hex w v ≡ s) × (v < limit)
part-digits limit w s {v} p l a e =
    let (same, small) = hex-from_str_radix limit s p (number-IsHexByte limit s a e) e in
    (rw (← l) same, small)

abbrev Accepted : Bytes → Bytes → Bytes → OperationId → Type 0
Accepted n p c id =
    (length n ≡ 16)
    × (length p ≡ 8)
    × (length c ≡ 8)
    × (all_bytes is_id_byte (joined n p c) ≡ true)
    × (build (from_str_radix (2 ^ 64) n) (from_str_radix (2 ^ 32) p) (from_str_radix (2 ^ 32) c)
        ≡ some id)

parse_parts-Accepted :
    (n p c : Bytes) {id : OperationId}
    → parse_parts (joined n p c) n p c ≡ some id
    → Accepted n p c id
unfolding parse_parts well_formed
parse_parts-Accepted n p c {id} h = ground arith

joined_parts :
    (n p c : Bytes) {id : OperationId}
    → parse_parts (joined n p c) n p c ≡ some id
    → (display id ≡ joined n p c) × InRange id
unfolding display
joined_parts n p c {id} h =
    let (ln, lp, lc, bytes, built) = parse_parts-Accepted n p c {id = id} h in
    let (en, ep, ec) = build-some _ _ _ {id = id} built in
    let split = all_bytes-joined n p c in
    let (dn, rn) = part-digits (2 ^ 64) 16 n (omega arith) ln (ground arith) en in
    let (dp, rp) = part-digits (2 ^ 32) 8 p (omega arith) lp (ground arith) ep in
    let (dc, rc) = part-digits (2 ^ 32) 8 c (omega arith) lc (ground arith) ec in
    (
      rw (dn, dp, dc),
      record { nanos_bound = omega arith; pid_bound = omega arith; counter_bound = omega arith },
    )

-- Whatever text is accepted is the text form of the id that it gives, and the id is in range: no
-- other spelling of it (uppercase digits, a sign, fewer or more digits) is accepted.
pub display-from_str :
    (s : Bytes) {id : OperationId} → from_str s ≡ some id → (display id ≡ s) × InRange id
unfolding from_str
display-from_str s {id} h = elim (Option-cases (split_once b'-' s)) [
  | inl e ↦ absurd (ground arith)
  | inr ((n, rest), e) ↦ elim (Option-cases (split_once b'-' rest)) [
    | inl e' ↦ absurd (ground arith)
    | inr ((p, c), e') ↦
        let whole : s ≡ joined n p c =
          split_once_sound b'-' s {l = n} {r = rest} e
          ∙ ap (λ t. n ++ b'-' ∷ t) (split_once_sound b'-' rest {l = p} {r = c} e') in
        let parts : parse_parts (joined n p c) n p c ≡ some id = rw (← whole) (ground arith) in
        rw whole (joined_parts n p c {id = id} parts)
  ]
]
