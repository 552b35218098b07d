-- ===== src/LogSink.antt =====
-- Names and retention of the core-log files: crates/nyanpasu-core-manager/src/log_sink.rs. A directory
-- is seen through the sequence numbers that `read_seqs` finds in it.
pub mod Retention
pub mod Names
mod Tests
use clash_nyanpasu_service.Shared.{
  ℕ, zero, suc, ◌+◌, ◌-◌, ◌*◌, ◌<◌, ◌^◌, Bytes, bytes_eq, Bool, true, false, ◌&&◌, Option, none,
  some, List, [], ◌∷◌, ◌++◌, if◌then◌else◌, leb, ltb, ◌==◌, drop, length, max,
}
use clash_nyanpasu_service.Shared.Decimal.{decimal}

-- `sort_unstable_by_key(Reverse)`: the newest first. Equal numbers cannot be told apart.
insert_seq : ℕ → List ℕ → List ℕ
insert_seq n [] = n ∷ []
insert_seq n (m ∷ ms) = let rest = insert_seq n ms in if leb m n then n ∷ m ∷ ms else m ∷ rest

pub newest_first : List ℕ → List ℕ
unfolding insert_seq
newest_first [] = []
newest_first (n ∷ ns) = insert_seq n (newest_first ns)

-- `prune_targets`.
pub prune_targets : List ℕ → ℕ → List ℕ
prune_targets seqs max_files = drop max_files (newest_first seqs)

largest : List ℕ → ℕ
largest [] = 0
largest (n ∷ ns) = max n (largest ns)

-- `next_seq` of the numbers read; a number of 2 ^ 64 - 1 is not expected.
pub next_seq : List ℕ → ℕ
unfolding largest
next_seq seqs = largest seqs + 1

zeros : ℕ → Bytes
zeros zero = []
zeros (suc n) = b'0' ∷ zeros n

-- `{seq:06}`.
padded : ℕ → Bytes
unfolding zeros
padded seq = zeros (6 - length (decimal seq)) ++ decimal seq

abbrev file_prefix : Bytes
file_prefix = b'c' ∷ b'o' ∷ b'r' ∷ b'e' ∷ b'-' ∷ []

abbrev file_suffix : Bytes
file_suffix = b'.' ∷ b'j' ∷ b's' ∷ b'o' ∷ b'n' ∷ b'l' ∷ []

pub file_name : ℕ → Bytes
unfolding padded
file_name seq = file_prefix ++ (padded seq ++ file_suffix)

pub is_digit : ℕ → Bool
is_digit b = leb b'0' b && leb b b'9'

-- `str::strip_prefix`.
strip_prefix : Bytes → Bytes → Option Bytes
strip_prefix [] s = some s
strip_prefix (p ∷ ps) [] = none
strip_prefix (p ∷ ps) (b ∷ bs) = let rest = strip_prefix ps bs in if p == b then rest else none

-- What is left when `s` is stripped of a suffix.
strip_suffix : Bytes → Bytes → Option Bytes
strip_suffix suffix [] = if bytes_eq suffix [] then some [] else none
strip_suffix suffix (b ∷ bs) =
    let rest = strip_suffix suffix bs in
    if bytes_eq suffix (b ∷ bs)
    then some []
    else elim rest [ none ↦ none | some front ↦ some (b ∷ front) ]

-- The digits of `str::parse::<u64>`, with its overflow check.
read_digits : ℕ → Bytes → Option ℕ
read_digits acc [] = some acc
read_digits acc (c ∷ cs) =
    if ltb (acc * 10 + (c - 48)) (2 ^ 64) then read_digits (acc * 10 + (c - 48)) cs else none

all_digits : Bytes → Bool
all_digits [] = true
all_digits (b ∷ bs) = is_digit b && all_digits bs

number : Bytes → Option ℕ
unfolding all_digits read_digits
number [] = none
number (c ∷ cs) = if all_digits (c ∷ cs) then read_digits 0 (c ∷ cs) else none

-- `file_seq`.
pub file_seq : Bytes → Option ℕ
unfolding strip_prefix strip_suffix number
file_seq name = elim (strip_prefix file_prefix name) [
  | none ↦ none
  | some rest ↦ elim (strip_suffix file_suffix rest) [ none ↦ none | some digits ↦ number digits ]
]
