-- ===== src/LogIndex/Tests.antt =====
-- The theorems on the index at a file of one line.
use clash_nyanpasu_service.Shared.{
  All, ◌<◌, ℕ, ◌≡◌, refl, Bytes, bytes_eq, codes, true, Option, none, some, List, [], ◌∷◌, map, ltb,
}
use clash_nyanpasu_service.LogIndex.{Parsed, info, Index, new_index, evict, resolve}
use clash_nyanpasu_service.LogIndex.Append.{feed_all, append, append_batch}
use clash_nyanpasu_service.LogIndex.Ordered.{Ordered, new_index-Ordered}
use clash_nyanpasu_service.LogIndex.Postings.{Texts, IsIndexed, new_index-Indexed, append-Indexed}
use clash_nyanpasu_service.LogIndex.Scan.{Filter, latest, Scan, scan}
use clash_nyanpasu_service.LogIndex.Scan.Found.{Answered, scan-Answered}
use clash_nyanpasu_service.LogIndex.Bounds.{Bounded, append-Bounded}

abbrev parsed : Bytes → Parsed ℕ
parsed line = record {
  object = true;
  timestamp = some 1000;
  level = some (codes "INFO");
  target = some (codes "core");
}

abbrev batch : Bytes
batch = 123 ∷ 125 ∷ 10 ∷ 123 ∷ []

abbrev read : Index parsed
read = evict parsed (feed_all parsed batch (new_index parsed 0))

append-batch : append parsed 0 batch (new_index parsed 0) ≡ some read
unfolding append append_batch new_index
append-batch = refl

append-Bounded_example : Bounded parsed read
append-Bounded_example =
    append-Bounded parsed 0 batch (new_index parsed 0) read (new_index-Ordered parsed 0)
      append-batch

-- A second batch, behind the entry of the first.
abbrev more : Bytes
more = 125 ∷ 10 ∷ []

abbrev read_more : Index parsed
read_more = evict parsed (feed_all parsed more read)

append-more : append parsed 4 more read ≡ some read_more
unfolding append append_batch new_index feed_all evict codes
append-more = refl

abbrev core_only : ℕ → Bytes
core_only start = codes "core"

read-Ordered : Ordered parsed read
read-Ordered =
    (append-Bounded parsed 0 batch (new_index parsed 0) read (new_index-Ordered parsed 0)
      append-batch).ordered

read-Indexed : IsIndexed parsed read
unfolding new_index
read-Indexed =
    (append-Indexed parsed 0 batch (new_index parsed 0) read core_only (new_index-Ordered parsed 0)
      (new_index-Indexed parsed 0) tt append-batch).0

read-Texts : Texts parsed core_only read
unfolding new_index feed_all evict resolve codes
read-Texts = (refl, tt)

append-Indexed_example :
    IsIndexed parsed read_more
    × All
        (λ e.
          e.start < read.line_start → resolve e.target read_more.tables.targets ≡ core_only e.start)
        read_more.entries
append-Indexed_example =
    append-Indexed parsed 4 more read read_more core_only read-Ordered read-Indexed read-Texts
      append-more

abbrev of_core : Filter ℕ
of_core = record {
  levels = info ∷ [];
  target = some (codes "core");
  from_ms = some 1000;
  to_ms = none;
  text = none;
}

abbrev starts_of : Option (Scan parsed ltb) → List ℕ
starts_of none = []
starts_of (some r) = map (λ e. e.start) r.entries

abbrev two_lines : Index parsed
two_lines = feed_all parsed (123 ∷ 10 ∷ 123 ∷ 125 ∷ 10 ∷ []) (new_index parsed 0)

latest_page : starts_of (scan parsed ltb of_core latest none 10 two_lines) ≡ 0 ∷ 2 ∷ []
unfolding scan feed_all new_index codes bytes_eq
latest_page = refl

one_at_least : starts_of (scan parsed ltb of_core latest none 0 two_lines) ≡ 2 ∷ []
unfolding scan feed_all new_index codes bytes_eq
one_at_least = refl

scan-Answered_example :
    Answered parsed ltb of_core read (scan parsed ltb of_core latest none 10 read)
scan-Answered_example =
    scan-Answered parsed ltb of_core latest none 10 read read-Ordered read-Indexed
