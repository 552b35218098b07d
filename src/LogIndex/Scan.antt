-- ===== src/LogIndex/Scan.antt =====
-- The search of the index: `Index::scan` of crates/nyanpasu-logging/src/index.rs. The entry of a posting is
-- found by a binary search; its `expect` is `none`. Text is matched by the reader of the file, behind the
-- search.
pub mod Finding
pub mod Candidates
pub mod Filtering
pub mod Found
use clash_nyanpasu_service.Shared.{
  ℕ, zero, suc, ◌/◌, ◌+◌, Bytes, bytes_eq, Bool, true, false, not, ◌&&◌, ◌||◌, ◌==◌, ltb, leb, min,
  max, Option, none, some, List, [], ◌∷◌, ◌++◌, length, map, if◌then◌else◌, is_some_and,
}
use clash_nyanpasu_service.LogIndex.{Level, level_number, Parsed, get, Entry, Index}

abbrev pub max_page : ℕ
max_page = 200

abbrev pub max_scan : ℕ
max_scan = 2000

pub record Filter (Time : Type 0) : Type 0 where
  pub levels : List Level
  pub target : Option Bytes
  pub from_ms : Option Time
  pub to_ms : Option Time
  pub text : Option Bytes

pub data Direction : Type 0 where
  latest before after : Direction

is_reverse : Direction → Bool
is_reverse latest = true
is_reverse before = true
is_reverse after = false

pub turned : {A : Type 0} → List A → List A
turned [] = []
turned (x ∷ xs) = turned xs ++ x ∷ []

-- The two sides of `partition_point`.
first_part : {A : Type 0} → (A → Bool) → List A → List A
first_part p [] = []
first_part p (x ∷ xs) = let rest = first_part p xs in if p x then x ∷ rest else []

last_part : {A : Type 0} → (A → Bool) → List A → List A
last_part p [] = []
last_part p (x ∷ xs) = let rest = last_part p xs in if p x then rest else x ∷ xs

-- The part before the boundary, last first, or the part from it on.
towards : {A : Type 0} → Bool → (A → Bool) → List A → List A
unfolding turned first_part last_part
towards true p xs = turned (first_part p xs)
towards false p xs = last_part p xs

-- The two parts at a place.
pub take : {A : Type 0} → ℕ → List A → List A
take n [] = []
take zero (x ∷ xs) = []
take (suc n) (x ∷ xs) = x ∷ take n xs

pub skip : {A : Type 0} → ℕ → List A → List A
skip n [] = []
skip zero (x ∷ xs) = x ∷ xs
skip (suc n) (x ∷ xs) = skip n xs

clamp : ℕ → ℕ
clamp limit = min (max limit 1) max_page

has_level : Level → List Level → Bool
has_level l [] = false
has_level l (k ∷ ks) = level_number l == level_number k || has_level l ks

shorter : Option (List ℕ) → Option (List ℕ) → Option (List ℕ)
shorter (some a) (some b) = some (if ltb (length a) (length b) then a else b)
shorter (some a) none = some a
shorter none b = b

-- A target with no entry has no posting.
present : List ℕ → Option (List ℕ)
present [] = none
present (p ∷ ps) = some (p ∷ ps)

-- `earlier` is the order of the timestamps.
module _ {Time : Type 0} (parse : Bytes → Parsed Time) (earlier : Time → Time → Bool) where
  pub record Scan : Type 0 where
    pub entries : List (Entry parse)
    pub boundary : ℕ
    pub more : Bool

  -- `Index::start`.
  pub index_start : Index parse → ℕ
  index_start x = elim x.entries [ [] ↦ x.committed | e ∷ es ↦ e.start ]

  -- The test of the entry in the middle.
  test_middle : ℕ → (below above : Option (Entry parse)) → List (Entry parse) → Option (Entry parse)
  test_middle start below above [] = none
  test_middle start below above (e ∷ es) =
      if e.start == start then some e else if ltb e.start start then above else below

  -- `binary_search_by_key` over the starts, on fuel.
  find_in : (fuel : ℕ) → ℕ → List (Entry parse) → Option (Entry parse)
  unfolding test_middle take skip
  find_in zero start es = none
  find_in (suc fuel) start es =
      let middle = length es / 2 in
      let below = find_in fuel start (take middle es) in
      let above = find_in fuel start (skip (suc middle) es) in
      test_middle start below above (skip middle es)

  pub find_entry : ℕ → List (Entry parse) → Option (Entry parse)
  unfolding find_in
  find_entry start es = find_in (length es) start es

  -- The symbol of the filter's target, where it has one.
  pub target_key : Option Bytes → Index parse → Option ℕ
  unfolding get
  target_key none x = none
  target_key (some name) x = get name x.tables.targets

  by_target : Index parse → Option ℕ → Option (List ℕ)
  unfolding present
  by_target x none = none
  by_target x (some key) = present (x.tables.postings key)

  by_level : Index parse → List Level → Option (List ℕ)
  by_level x (l ∷ []) = some (x.tables.levels (level_number l))
  by_level x _ = none

  from_posting : Bool → ℕ → Index parse → Option (List ℕ) → List (Option (Entry parse))
  unfolding towards find_entry
  from_posting reverse boundary x none =
      map some (towards reverse (λ e. ltb e.start boundary) x.entries)
  from_posting reverse boundary x (some posting) =
      map (λ id. find_entry id x.entries) (towards reverse (λ p. ltb p boundary) posting)

  -- The entries that are looked at, in the order of the search.
  pub candidates : Bool → ℕ → Option ℕ → Filter Time → Index parse → List (Option (Entry parse))
  unfolding from_posting by_target by_level shorter
  candidates reverse boundary key filter x =
      from_posting reverse boundary x (shorter (by_target x key) (by_level x filter.levels))

  level_matches : List Level → Entry parse → Bool
  unfolding has_level
  level_matches [] e = true
  level_matches (l ∷ ls) e = has_level e.level (l ∷ ls)

  target_matches : Option ℕ → Entry parse → Bool
  target_matches none e = true
  target_matches (some key) e = key == e.target

  -- An entry without a time is outside every bound.
  from_matches : Option Time → Entry parse → Bool
  from_matches none e = true
  from_matches (some from) e = is_some_and e.timestamp (λ t. not (earlier t from))

  to_matches : Option Time → Entry parse → Bool
  to_matches none e = true
  to_matches (some to) e = is_some_and e.timestamp (λ t. earlier t to)

  pub matches : Option ℕ → Filter Time → Entry parse → Bool
  unfolding level_matches target_matches from_matches to_matches
  matches key filter e =
      level_matches filter.levels e
      && target_matches key e
      && from_matches filter.from_ms e
      && to_matches filter.to_ms e

  look_at : Bool → Option ℕ → Filter Time → Entry parse → Scan → Scan
  unfolding matches
  look_at reverse key filter e r =
      let seen = record r { boundary = if reverse then e.start else e.end_ } in
      if matches key filter e then record seen { entries = r.entries ++ e ∷ [] } else seen

  -- The loop; `none` for its panic.
  search :
      Bool
      → Option ℕ
      → Filter Time
      → (limit : ℕ) → List (Option (Entry parse))
      → (scanned : ℕ) → Scan
      → Option Scan
  unfolding look_at clamp
  search reverse key filter limit [] scanned r = some r
  search reverse key filter limit (none ∷ cs) scanned r = none
  search reverse key filter limit (some e ∷ cs) scanned r =
      let rest =
        search reverse key filter limit cs (scanned + 1) (look_at reverse key filter e r) in
      if leb max_scan scanned || leb (clamp limit) (length r.entries)
      then some (record r { more = true })
      else rest

  far_end : Bool → Index parse → ℕ
  unfolding index_start
  far_end true x = index_start x
  far_end false x = x.committed

  finish : Bool → Index parse → Scan → Scan
  unfolding far_end turned
  finish reverse x r = record r {
    boundary = if r.more then r.boundary else far_end reverse x;
    entries = if reverse then turned r.entries else r.entries;
  }

  finished : Bool → Index parse → Option Scan → Option Scan
  unfolding finish
  finished reverse x none = none
  finished reverse x (some r) = some (finish reverse x r)

  scan_from : Bool → ℕ → Option ℕ → Filter Time → (limit : ℕ) → Index parse → Option Scan
  unfolding finished search candidates
  scan_from reverse boundary key filter limit x = finished reverse x (
      search reverse key filter limit (candidates reverse boundary key filter x) 0
        (record { entries = []; boundary = boundary; more = false }))

  boundary_or : Bool → Index parse → Option ℕ → ℕ
  unfolding far_end
  boundary_or reverse x none = far_end (not reverse) x
  boundary_or reverse x (some b) = b

  -- Whether the filter has a target that was never interned.
  pub unknown_target : Option Bytes → Option ℕ → Bool
  unknown_target (some name) none = true
  unknown_target _ key = false

  -- `scan`.
  unfoldable pub scan : Filter Time → Direction → Option ℕ → (limit : ℕ) → Index parse → Option Scan
  unfolding scan_from boundary_or far_end unknown_target target_key is_reverse
  scan filter direction boundary limit x =
      let key = target_key filter.target x in
      if unknown_target filter.target key
      then some (record { entries = []; boundary = far_end (is_reverse direction) x; more = false })
      else scan_from (is_reverse direction) (boundary_or (is_reverse direction) x boundary) key
          filter limit x
