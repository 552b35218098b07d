-- ===== src/LogIndex/Scan/Found.antt =====
-- The search gives entries of the index that match, not too many, and its `expect` is met.
use clash_nyanpasu_service.Shared.{
  ℕ, ◌+◌, ◌≤◌, ◌<◌, ◌≡◌, inl, inr, Bytes, Bool, true, false, ◌||◌, leb, Option, none, some, List,
  [], ◌∷◌, All, All-append, length, length-append, arith, Bool-cases,
}
use clash_nyanpasu_service.LogIndex.{Parsed, Entry, Index}
use clash_nyanpasu_service.LogIndex.Ordered.{Ordered}
use clash_nyanpasu_service.LogIndex.Postings.{Indexed}
use clash_nyanpasu_service.LogIndex.Scan.{
  max_page, max_scan, Filter, Direction, is_reverse, clamp, Scan, target_key, matches, look_at,
  search, finish, finished, scan_from, unknown_target, scan,
}
use clash_nyanpasu_service.LogIndex.Scan.Finding.{Among}
use clash_nyanpasu_service.LogIndex.Scan.Filtering.{Found, matches-Found}
use clash_nyanpasu_service.LogIndex.Scan.Candidates.{Met, candidates-Met, All-turned, length-turned}

module _ {Time : Type 0} (parse : Bytes → Parsed Time) (earlier : Time → Time → Bool) where
  -- A page of such entries.
  pub record Page (filter : Filter Time) (x : Index parse) (r : Scan parse earlier) : Type 0 where
    pub found : All (Found parse earlier filter x) r.entries
    pub short : length r.entries ≤ max_page

  abbrev pub Answered : Filter Time → Index parse → Option (Scan parse earlier) → Type 0
  Answered filter x none = ⊥
  Answered filter x (some r) = Page filter x r

  -- The filter's target, if it has one, is of the pool.
  abbrev Known : Filter Time → Index parse → Type 0
  Known filter x =
      unknown_target parse earlier filter.target (target_key parse earlier filter.target x) ≡ false

  abbrev key_of : Filter Time → Index parse → Option ℕ
  key_of filter x = target_key parse earlier filter.target x

  look_at-Page :
      (reverse : Bool) (filter : Filter Time) (x : Index parse) (e : Entry parse)
      (r : Scan parse earlier)
      → Known filter x
      → Among parse earlier e x.entries
      → length r.entries < max_page
      → Page filter x r
      → Page filter x (look_at parse earlier reverse (key_of filter x) filter e r)
  unfolding look_at
  look_at-Page reverse filter x e r u a l h =
      elim (Bool-cases (matches parse earlier (key_of filter x) filter e)) [
        | inl t ↦ rw t (record {
          found =
              All-append _ r.entries (e ∷ []) h.found
                (matches-Found parse earlier filter x e a u t, tt);
          short = omega (arith, l, length-append r.entries (e ∷ []));
        })
        | inr t ↦ rw t (record { found = h.found; short = h.short })
      ]

  below_page : (limit n : ℕ) (b : Bool) → (b || leb (clamp limit) n) ≡ false → n < max_page
  unfolding clamp
  below_page limit n b t = ground (arith, t)

  search-Answered :
      (reverse : Bool) (filter : Filter Time) (limit : ℕ) (x : Index parse)
      (cs : List (Option (Entry parse))) (scanned : ℕ) (r : Scan parse earlier)
      → Known filter x
      → All (Met parse earlier x.entries) cs
      → Page filter x r
      → Answered filter x (search parse earlier reverse (key_of filter x) filter limit cs scanned r)
  unfolding search
  search-Answered reverse filter limit x [] scanned r u m h = h
  search-Answered reverse filter limit x (none ∷ cs) scanned r u m h = absurd m.0
  search-Answered reverse filter limit x (some e ∷ cs) scanned r u (a, m) h =
      elim (Bool-cases (leb max_scan scanned || leb (clamp limit) (length r.entries))) [
        | inl t ↦ rw t (record { found = h.found; short = h.short })
        | inr t ↦ rw t (
            search-Answered reverse filter limit x cs (scanned + 1) _ u m
              (look_at-Page reverse filter x e r u a (below_page limit _ _ t) h))
      ]

  finish-Page :
      (reverse : Bool) (filter : Filter Time) (x : Index parse) (r : Scan parse earlier)
      → Page filter x r
      → Page filter x (finish parse earlier reverse x r)
  unfolding finish
  finish-Page true filter x r h = record {
    found = All-turned _ r.entries h.found;
    short = omega (arith, h.short, length-turned r.entries);
  }
  finish-Page false filter x r h = record { found = h.found; short = h.short }

  finished-Answered :
      (reverse : Bool) (filter : Filter Time) (x : Index parse) (o : Option (Scan parse earlier))
      → Answered filter x o
      → Answered filter x (finished parse earlier reverse x o)
  unfolding finished
  finished-Answered reverse filter x none h = h
  finished-Answered reverse filter x (some r) h = finish-Page reverse filter x r h

  scan_from-Answered :
      (reverse : Bool) (boundary : ℕ) (filter : Filter Time) (limit : ℕ) (x : Index parse)
      → Known filter x
      → Ordered parse x
      → Indexed parse x.tables x.entries
      → Answered filter x
          (scan_from parse earlier reverse boundary (key_of filter x) filter limit x)
  unfolding scan_from
  scan_from-Answered reverse boundary filter limit x u o i = finished-Answered reverse filter x _ (
      search-Answered reverse filter limit x _ 0 _ u
        (candidates-Met parse earlier reverse boundary (key_of filter x) filter x o i)
        (record { found = tt; short = omega arith }))

  -- Where the entries are in order and the postings are those of the entries, a search never meets its
  -- panic: its binary searches find their entries, and it answers with a page of at most 200 entries,
  -- whatever limit was asked for, each of which is in the index, has one of the levels that the filter
  -- asks for, a symbol that resolves to the filter's target, and a time that is not earlier than the first
  -- bound and earlier than the second.
  pub scan-Answered :
      (filter : Filter Time) (direction : Direction) (boundary : Option ℕ) (limit : ℕ)
      (x : Index parse)
      → Ordered parse x
      → Indexed parse x.tables x.entries
      → Answered filter x (scan parse earlier filter direction boundary limit x)
  unfolding scan
  scan-Answered filter direction boundary limit x o i =
      elim (Bool-cases (unknown_target parse earlier filter.target (key_of filter x))) [
        | inl t ↦ rw t (record { found = tt; short = omega arith })
        | inr t ↦ rw t (scan_from-Answered (is_reverse direction) _ filter limit x t o i)
      ]
