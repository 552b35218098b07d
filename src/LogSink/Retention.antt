-- ===== src/LogSink/Retention.antt =====
-- Which files retention deletes.
use clash_nyanpasu_service.Shared.{
  ℕ, ◌+◌, ◌≤◌, ◌<◌, List, [], ◌∷◌, if◌then◌else◌, ◌==◌, All, All-map, arith, max,
}
use clash_nyanpasu_service.LogSink.{largest, next_seq}

-- How often a number stands in a list.
pub count : ℕ → List ℕ → ℕ
count n [] = 0
count n (m ∷ ms) = (if m == n then 1 else 0) + count n ms

-- The largest first.
Descending : List ℕ → Type 0
Descending [] = Unit
Descending (n ∷ ns) = All (λ m. m ≤ n) ns × Descending ns

largest-bound : (seqs : List ℕ) → All (λ n. n ≤ largest seqs) seqs
unfolding largest
largest-bound [] = tt
largest-bound (n ∷ ns) = (
  omega arith,
  All-map (λ m. m ≤ largest ns) (λ m. m ≤ max n (largest ns)) ns (λ m h. omega arith)
      (largest-bound ns),
)

-- The number of a new file is larger than that of every file that is there.
pub next_seq-newest : (seqs : List ℕ) → All (λ n. n < next_seq seqs) seqs
unfolding next_seq
next_seq-newest seqs =
    All-map (λ n. n ≤ largest seqs) (λ n. n < largest seqs + 1) seqs (λ n h. omega arith)
      (largest-bound seqs)
