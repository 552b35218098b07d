-- ===== src/LogIndex/Ordered.antt =====
-- The entries lie one after another in the file, behind what is read.
use clash_nyanpasu_service.Shared.{
  ℕ, ◌+◌, ◌≤◌, ◌<◌, Bytes, Bool, true, false, ◌||◌, ◌==◌, inl, inr, List, [], ◌∷◌, ◌++◌, length,
  length-append, arith, Bool-cases,
}
use clash_nyanpasu_service.LogIndex.{
  max_line, Parsed, Entry, Index, new_index, evicted, removed, must_go, evict_to, evict,
  choose_again, fits, interned, choose, insert_as, insert_keyed, rebuild, Tables, choose_parsed,
  insert_parsed, insert,
}
use clash_nyanpasu_service.LogIndex.Append.{end_line, newline, collect, feed_read, feed, feed_all}

module _ {Time : Type 0} (parse : Bytes → Parsed Time) where
  -- Entries that lie one after another between two positions.
  abbrev pub Chain : ℕ → List (Entry parse) → ℕ → Type 0
  Chain lo [] hi = lo ≤ hi
  Chain lo (e ∷ es) hi = (lo ≤ e.start) × (e.start < e.end_) × Chain e.end_ es hi

  Chain-lower :
      (lo lower hi : ℕ) (es : List (Entry parse)) → lower ≤ lo → Chain lo es hi → Chain lower es hi
  Chain-lower lo lower hi [] k c = omega arith
  Chain-lower lo lower hi (e ∷ es) k (a, b, c) = (omega arith, b, c)

  pub Chain-upper :
      (lo hi higher : ℕ) (es : List (Entry parse))
      → hi ≤ higher
      → Chain lo es hi
      → Chain lo es higher
  Chain-upper lo hi higher [] k c = omega arith
  Chain-upper lo hi higher (e ∷ es) k (a, b, c) = (a, b, Chain-upper e.end_ hi higher es k c)

  Chain-snoc :
      (lo hi : ℕ) (es : List (Entry parse)) (e : Entry parse)
      → Chain lo es e.start
      → e.start < e.end_
      → e.end_ ≤ hi
      → Chain lo (es ++ e ∷ []) hi
  Chain-snoc lo hi [] e c k l = (c, k, l)
  Chain-snoc lo hi (d ∷ es) e (a, b, c) k l = (a, b, Chain-snoc d.end_ hi es e c k l)

  evicted-Chain :
      (floor lo hi : ℕ) (es : List (Entry parse))
      → Chain lo es hi
      → Chain lo (evicted parse floor es) hi
  unfolding evicted
  evicted-Chain floor lo hi [] c = c
  evicted-Chain floor lo hi (e ∷ es) (a, b, c) = elim (Bool-cases (must_go parse floor e es)) [
    | inl t ↦ rw t (Chain-lower e.end_ lo hi _ (omega arith) (evicted-Chain floor e.end_ hi es c))
    | inr t ↦ rw t (a, b, c)
  ]

  -- A new symbol moves no entry.
  rebuild-Chain :
      (old : List Bytes) (lo hi : ℕ) (es : List (Entry parse)) (t : Tables)
      → Chain lo es hi
      → Chain lo (rebuild parse old es t).0 hi
  unfolding rebuild
  rebuild-Chain old lo hi [] t c = c
  rebuild-Chain old lo hi (e ∷ es) t (a, b, c) = (a, b, rebuild-Chain old e.end_ hi es _ c)

  -- The entries lie in order, before the line that is being read, which has not more than its bytes.
  pub record Ordered (x : Index parse) : Type 0 where
    pub chain : Chain 0 x.entries x.line_start
    pub line_first : x.line_start ≤ x.next_read
    pub line_bounded : length x.pending ≤ max_line

  -- A line has been read to its end.
  record Closed (x : Index parse) : Type 0 where
    chain : Chain 0 x.entries x.line_start
    line_read : x.line_start < x.next_read
    line_bounded : length x.pending ≤ max_line

  evict_to-Closed : (floor : ℕ) (x : Index parse) → Closed x → Closed (evict_to parse floor x)
  unfolding evict_to
  evict_to-Closed floor x c = elim (Bool-cases (removed parse floor x.entries)) [
    | inl t ↦ rw t (record {
      chain = rebuild-Chain _ 0 _ _ _ (evicted-Chain floor 0 _ x.entries c.chain);
      line_read = c.line_read;
      line_bounded = c.line_bounded;
    })
    | inr t ↦ rw t c
  ]

  evict_to-Ordered : (floor : ℕ) (x : Index parse) → Ordered x → Ordered (evict_to parse floor x)
  unfolding evict_to
  evict_to-Ordered floor x c = elim (Bool-cases (removed parse floor x.entries)) [
    | inl t ↦ rw t (record {
      chain = rebuild-Chain _ 0 _ _ _ (evicted-Chain floor 0 _ x.entries c.chain);
      line_first = c.line_first;
      line_bounded = c.line_bounded;
    })
    | inr t ↦ rw t c
  ]

  pub evict-Ordered : (x : Index parse) → Ordered x → Ordered (evict parse x)
  unfolding evict
  evict-Ordered x c = evict_to-Ordered _ x c

  evict-Closed : (x : Index parse) → Closed x → Closed (evict parse x)
  unfolding evict
  evict-Closed x c = evict_to-Closed _ x c

  choose_again-Closed :
      (target : Bytes) (cut : Bool) (x : Index parse)
      → Closed x
      → Closed (choose_again parse target cut x).0
  unfolding choose_again
  choose_again-Closed target cut x c = elim (Bool-cases (fits parse target x)) [
    | inl t ↦ rw t c
    | inr t ↦ rw t c
  ]

  choose-Closed :
      (target : Bytes) (cut : Bool) (x : Index parse)
      → Closed x
      → Closed (choose parse target cut x).0
  unfolding choose
  choose-Closed target cut x c =
      elim (Bool-cases (interned target x.tables.targets || fits parse target x)) [
        | inl t ↦ rw t c
        | inr t ↦ rw t (choose_again-Closed target cut _ (evict-Closed x c))
      ]

  -- The entry of a line ends where the line does.
  record Entered (x : Index parse) : Type 0 where
    chain : Chain 0 x.entries x.next_read

  insert_as-Entered :
      (p : Parsed Time) (c : Index parse × Bytes × Bool)
      → Closed c.0
      → Entered (insert_as parse p c)
  unfolding insert_as insert_keyed
  insert_as-Entered p (x, target, cut) c = record {
    chain = Chain-snoc 0 x.next_read x.entries _ c.chain c.line_read (omega arith);
  }

  insert_parsed-Entered :
      (p : Parsed Time) (x : Index parse) → Closed x → Entered (insert_parsed parse p x)
  unfolding insert_parsed choose_parsed
  insert_parsed-Entered p x c =
      insert_as-Entered p (choose_parsed parse p x) (choose-Closed _ _ x c)

  insert-Entered : (line : Bytes) (x : Index parse) → Closed x → Entered (insert parse line x)
  unfolding insert
  insert-Entered line x c = insert_parsed-Entered (parse line) x c

  end_line-Entered :
      (skipping : Bool) (x : Index parse) → Closed x → Entered (end_line parse skipping x)
  unfolding end_line
  end_line-Entered true x c = record {
    chain = Chain-upper 0 _ _ x.entries (omega (arith, c.line_read)) c.chain;
  }
  end_line-Entered false x c = insert-Entered x.pending x c

  newline-Ordered : (x : Index parse) → Closed x → Ordered (newline parse x)
  unfolding newline
  newline-Ordered x c = record {
    chain = (end_line-Entered x.skipping x c).chain;
    line_first = omega arith;
    line_bounded = omega arith;
  }

  collect-Ordered :
      (byte : ℕ) (skipping : Bool) (x : Index parse)
      → Ordered x
      → Ordered (collect parse byte skipping x)
  unfolding collect
  collect-Ordered byte true x c = c
  collect-Ordered byte false x c = elim (Bool-cases (length x.pending == max_line)) [
    | inl t ↦
        rw t (record { chain = c.chain; line_first = c.line_first; line_bounded = omega arith })
    | inr t ↦ rw t (record {
      chain = c.chain;
      line_first = c.line_first;
      line_bounded = ground (arith, length-append x.pending (byte ∷ []), c.line_bounded);
    })
  ]

  feed_read-Ordered :
      (ends : Bool) (byte : ℕ) (x : Index parse) → Closed x → Ordered (feed_read parse ends byte x)
  unfolding feed_read
  feed_read-Ordered true byte x c = newline-Ordered x c
  feed_read-Ordered false byte x c = collect-Ordered byte x.skipping x (record {
    chain = c.chain;
    line_first = omega (arith, c.line_read);
    line_bounded = c.line_bounded;
  })

  feed-Ordered : (byte : ℕ) (x : Index parse) → Ordered x → Ordered (feed parse byte x)
  unfolding feed
  feed-Ordered byte x c =
      feed_read-Ordered (byte == b'\n') byte (record x { next_read = x.next_read + 1 })
        (record {
          chain = c.chain;
          line_read = omega (arith, c.line_first);
          line_bounded = c.line_bounded;
        })

  pub feed_all-Ordered :
      (bytes : Bytes) (x : Index parse) → Ordered x → Ordered (feed_all parse bytes x)
  unfolding feed_all
  feed_all-Ordered [] x c = c
  feed_all-Ordered (byte ∷ bytes) x c = feed_all-Ordered bytes _ (feed-Ordered byte x c)

  pub new_index-Ordered : (start : ℕ) → Ordered (new_index parse start)
  unfolding new_index
  new_index-Ordered start = record {
    chain = omega arith;
    line_first = omega arith;
    line_bounded = omega arith;
  }
