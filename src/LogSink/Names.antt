-- ===== src/LogSink/Names.antt =====
-- The name of a file and its number.
use native.Mathlib.Nat.{pow-suc}
use clash_nyanpasu_service.Shared.{
  ℕ, zero, suc, ◌+◌, ◌-◌, ◌*◌, ◌/◌, ◌%◌, ◌^◌, ◌<◌, ◌≡◌, refl, ap, ◌∙◌, true, false, some, [], ◌∷◌,
  ◌++◌, ltb, length, length-append, arith, Bool-cases, inl, inr, Bytes, bytes_eq, bytes_eq_iff,
  bytes_eq_refl,
}
use clash_nyanpasu_service.Shared.Decimal.{decimal, decimal_digits}
use clash_nyanpasu_service.LogSink.{
  zeros, padded, file_prefix, file_suffix, file_name, is_digit, strip_suffix, read_digits,
  all_digits, number, file_seq,
}

longer : (d : ℕ) (ds s : Bytes) → bytes_eq s (d ∷ (ds ++ s)) ≡ false
longer d ds s = elim (Bool-cases (bytes_eq s (d ∷ (ds ++ s)))) [
  | inl e ↦
      let same : s ≡ d ∷ (ds ++ s) = (bytes_eq_iff s (d ∷ (ds ++ s))).0 e in
      absurd (omega (arith, ap length same, length-append ds s))
  | inr e ↦ e
]

strip_suffix_self : (s : Bytes) → strip_suffix s s ≡ some []
unfolding strip_suffix
strip_suffix_self [] = rw (bytes_eq_refl []) refl
strip_suffix_self (b ∷ bs) = rw (bytes_eq_refl (b ∷ bs)) refl

strip_suffix-append : (ds s : Bytes) → strip_suffix s (ds ++ s) ≡ some ds
unfolding strip_suffix
strip_suffix-append [] s = strip_suffix_self s
strip_suffix-append (d ∷ ds) s = rw (longer d ds s, strip_suffix-append ds s) refl

read_digits-last :
    (acc c a : ℕ) (cs : Bytes)
    → read_digits acc cs ≡ some a
    → a * 10 + (c - 48) < 2 ^ 64
    → read_digits acc (cs ++ c ∷ []) ≡ some (a * 10 + (c - 48))
unfolding read_digits
read_digits-last acc c a [] h lt = ground arith
read_digits-last acc c a (d ∷ ds) h lt = elim (Bool-cases (ltb (acc * 10 + (d - 48)) (2 ^ 64))) [
  | inl e ↦ rw e (read_digits-last (acc * 10 + (d - 48)) c a ds (rw e at h) lt)
  | inr e ↦ absurd (ground arith)
]

read_digits-decimal_digits :
    (fuel n : ℕ) → n < 10 ^ fuel → n < 2 ^ 64 → read_digits 0 (decimal_digits fuel n) ≡ some n
unfolding decimal_digits read_digits
read_digits-decimal_digits zero n lt bound = ground arith
read_digits-decimal_digits (suc fuel) n lt bound = elim (Bool-cases (ltb n 10)) [
  | inl e ↦ rw e (ground arith)
  | inr e ↦
      let ih =
        read_digits-decimal_digits fuel (n / 10) (omega (arith, pow-suc 10 fuel)) (omega arith) in
      let last =
        read_digits-last 0 (n % 10 + 48) (n / 10) (decimal_digits fuel (n / 10)) ih (omega arith) in
      let value : n / 10 * 10 + (n % 10 + 48 - 48) ≡ n = omega arith in rw e (last ∙ ap some value)
]

all_digits-append :
    (a b : Bytes) → all_digits a ≡ true → all_digits b ≡ true → all_digits (a ++ b) ≡ true
unfolding all_digits
all_digits-append [] b ha hb = hb
all_digits-append (x ∷ a) b ha hb = ground (arith, all_digits-append a b)

all_digits-decimal_digits : (fuel n : ℕ) → all_digits (decimal_digits fuel n) ≡ true
unfolding decimal_digits all_digits is_digit
all_digits-decimal_digits zero n = refl
all_digits-decimal_digits (suc fuel) n = elim (Bool-cases (ltb n 10)) [
  | inl e ↦ rw e (ground arith)
  | inr e ↦ rw e (
      all_digits-append (decimal_digits fuel (n / 10)) _ (all_digits-decimal_digits fuel (n / 10))
        (ground arith))
]

all_digits-zeros : (k : ℕ) → all_digits (zeros k) ≡ true
unfolding zeros all_digits is_digit
all_digits-zeros zero = refl
all_digits-zeros (suc k) = ground (arith, all_digits-zeros k)

read_digits-zeros : (k : ℕ) (s : Bytes) → read_digits 0 (zeros k ++ s) ≡ read_digits 0 s
unfolding zeros read_digits
read_digits-zeros zero s = refl
read_digits-zeros (suc k) s = read_digits-zeros k s

length-zeros : (k : ℕ) → length (zeros k) ≡ k
unfolding zeros
length-zeros zero = refl
length-zeros (suc k) = omega (arith, length-zeros k)

number-digits :
    (s : Bytes) (n : ℕ)
    → 0 < length s
    → all_digits s ≡ true
    → read_digits 0 s ≡ some n
    → number s ≡ some n
unfolding number
number-digits [] n h a r = absurd (omega arith)
number-digits (c ∷ cs) n h a r = rw a r

file_seq-parts :
    (digits : Bytes) (n : ℕ)
    → number digits ≡ some n
    → file_seq (file_prefix ++ (digits ++ file_suffix)) ≡ some n
unfolding file_seq
file_seq-parts digits n h = rw (file_seq, strip_suffix-append digits file_suffix) h

padded-number : (n : ℕ) → n < 2 ^ 64 → number (padded n) ≡ some n
unfolding padded decimal
padded-number n bound =
    let k = 6 - length (decimal n) in
    number-digits (padded n) n (omega (arith, length-append (zeros k) (decimal n), length-zeros k))
      (all_digits-append (zeros k) (decimal n) (all_digits-zeros k)
        (all_digits-decimal_digits 20 n))
      (read_digits-zeros k (decimal n) ∙ read_digits-decimal_digits 20 n (omega arith) bound)

-- Every number of 64 bits is read back from the name of its file.
pub file_seq-file_name : (n : ℕ) → n < 2 ^ 64 → file_seq (file_name n) ≡ some n
unfolding file_name
file_seq-file_name n bound = file_seq-parts (padded n) n (padded-number n bound)
