-- ===== src/LogIndex/Postings.antt =====
-- The postings are what a walk over the entries would find, so that each posting has its entry.
use clash_nyanpasu_service.Shared.{
  ℕ, ◌+◌, ◌≡◌, refl, sym, ap, subst, ◌∙◌, inl, inr, Bytes, All, All-append, All-map, length-append,
  arith, ◌<◌, none, Option, Bool, true, false, ◌||◌, ◌==◌, some, List, [], ◌∷◌, ◌++◌, append-nil,
  append_assoc, length, if◌then◌else◌, Bool-cases,
}
use clash_nyanpasu_service.LogIndex.{
  max_line, level_number, Parsed, Tables, no_tables, interned, push_posting, get, resolve, key_or,
  key_for, insert_keyed, Entry, Index, new_index, post, rebuild, evicted, removed, evict_to, evict,
  fits, choose_again, choose, insert_as, choose_parsed, insert_parsed, insert,
}
use clash_nyanpasu_service.LogIndex.Names.{get-lt, Stands, Named, append-Named}
use clash_nyanpasu_service.LogIndex.Ordered.{Ordered}
use clash_nyanpasu_service.LogIndex.Append.{
  end_line, newline, collect, feed_read, feed, feed_all, append_batch, append,
}

module _ {Time : Type 0} (parse : Bytes → Parsed Time) where
  -- The starts of the entries that a test accepts, in their order.
  unfoldable pub starts : (Entry parse → Bool) → List (Entry parse) → List ℕ
  starts p [] = []
  starts p (e ∷ es) = let rest = starts p es in if p e then e.start ∷ rest else rest

  -- The postings of each symbol and of each level are the starts of its entries, and every entry has a
  -- symbol of the pool.
  pub record Indexed (t : Tables) (es : List (Entry parse)) : Type 0 where
    pub by_target : (key : ℕ) → t.postings key ≡ starts (λ e. key == e.target) es
    pub by_level : (key : ℕ) → t.levels key ≡ starts (λ e. key == level_number e.level) es
    pub keyed : All (λ e. e.target < length t.targets) es

  cons_if :
      (b : Bool) (n m : ℕ) (ns ms : List ℕ)
      → ns ≡ (if b then ms ++ m ∷ [] else ms)
      → n ∷ ns ≡ (if b then (n ∷ ms) ++ m ∷ [] else n ∷ ms)
  cons_if true n m ns ms e = ap (◌∷◌ n) e
  cons_if false n m ns ms e = ap (◌∷◌ n) e

  starts_snoc :
      (p : Entry parse → Bool) (es : List (Entry parse)) (e : Entry parse)
      → starts p (es ++ e ∷ []) ≡ (if p e then starts p es ++ e.start ∷ [] else starts p es)
  unfolding starts
  starts_snoc p [] e = elim (Bool-cases (p e)) [ inl t ↦ rw t refl | inr t ↦ rw t refl ]
  starts_snoc p (d ∷ es) e = elim (Bool-cases (p d)) [
    | inl t ↦ rw t (cons_if (p e) d.start e.start _ _ (starts_snoc p es e))
    | inr t ↦ rw t (starts_snoc p es e)
  ]

  post-Indexed :
      (e : Entry parse) (t : Tables) (es : List (Entry parse))
      → e.target < length t.targets
      → Indexed t es
      → Indexed (post parse e t) (es ++ e ∷ [])
  unfolding post push_posting
  post-Indexed e t es k i = record {
    by_target = λ key.
        ap (λ l. if key == e.target then l ++ e.start ∷ [] else l) (i.by_target key)
        ∙ sym (starts_snoc (λ d. key == d.target) es e);
    by_level = λ key.
        ap (λ l. if key == level_number e.level then l ++ e.start ∷ [] else l) (i.by_level key)
        ∙ sym (starts_snoc (λ d. key == level_number d.level) es e);
    keyed = All-append _ es (e ∷ []) i.keyed (k, tt);
  }

  key_or-Indexed :
      (name : Bytes) (o : Option ℕ) (t : Tables) (es : List (Entry parse))
      → o ≡ get name t.targets
      → Indexed t es
      → ((key_or name o t).0 < length (key_or name o t).1.targets) × Indexed (key_or name o t).1 es
  unfolding key_or
  key_or-Indexed name (some key) t es e i = (get-lt name t.targets key (sym e), i)
  key_or-Indexed name none t es e i =
      let longer = length-append t.targets (name ∷ []) in
      (
        omega (arith, longer),
        record {
          by_target = i.by_target;
          by_level = i.by_level;
          keyed = All-map _ _ es (λ d k. omega (arith, k, longer)) i.keyed;
        },
      )

  key_for-Indexed :
      (name : Bytes) (t : Tables) (es : List (Entry parse))
      → Indexed t es
      → ((key_for name t).0 < length (key_for name t).1.targets) × Indexed (key_for name t).1 es
  unfolding key_for
  key_for-Indexed name t es i = key_or-Indexed name (get name t.targets) t es refl i

  rebuild-Indexed :
      (old : List Bytes) (es done : List (Entry parse)) (t : Tables)
      → Indexed t done
      → Indexed (rebuild parse old es t).1 (done ++ (rebuild parse old es t).0)
  unfolding rebuild
  rebuild-Indexed old [] done t i = subst (Indexed t) (sym (append-nil done)) i
  rebuild-Indexed old (e ∷ es) done t i =
      let (k, j) = key_for-Indexed (resolve e.target old) t done i in
      let moved : Entry parse = record e { target = (key_for (resolve e.target old) t).0 } in
      let posted = post parse moved (key_for (resolve e.target old) t).1 in
      subst (Indexed (rebuild parse old es posted).1)
        (append_assoc done (moved ∷ []) (rebuild parse old es posted).0)
        (rebuild-Indexed old es (done ++ moved ∷ []) posted (post-Indexed moved _ done k j))

  pub no_tables-Indexed : Indexed no_tables []
  unfolding no_tables starts
  no_tables-Indexed = record { by_target = λ key. refl; by_level = λ key. refl; keyed = tt }

  -- An index whose tables are those of its entries.
  abbrev pub IsIndexed : Index parse → Type 0
  IsIndexed x = Indexed x.tables x.entries

  evict_to-Indexed :
      (floor : ℕ) (x : Index parse) → IsIndexed x → IsIndexed (evict_to parse floor x)
  unfolding evict_to
  evict_to-Indexed floor x i = elim (Bool-cases (removed parse floor x.entries)) [
    | inl t ↦ rw t (
        rebuild-Indexed x.tables.targets (evicted parse floor x.entries) [] no_tables
          no_tables-Indexed)
    | inr t ↦ rw t i
  ]

  pub evict-Indexed : (x : Index parse) → IsIndexed x → IsIndexed (evict parse x)
  unfolding evict
  evict-Indexed x i = evict_to-Indexed _ x i

  choose_again-Indexed :
      (target : Bytes) (cut : Bool) (x : Index parse)
      → IsIndexed x
      → IsIndexed (choose_again parse target cut x).0
  unfolding choose_again
  choose_again-Indexed target cut x i = elim (Bool-cases (fits parse target x)) [
    | inl t ↦ rw t i
    | inr t ↦ rw t i
  ]

  choose-Indexed :
      (target : Bytes) (cut : Bool) (x : Index parse)
      → IsIndexed x
      → IsIndexed (choose parse target cut x).0
  unfolding choose
  choose-Indexed target cut x i =
      elim (Bool-cases (interned target x.tables.targets || fits parse target x)) [
        | inl t ↦ rw t i
        | inr t ↦ rw t (choose_again-Indexed target cut _ (evict-Indexed x i))
      ]

  insert_as-Indexed :
      (p : Parsed Time) (c : Index parse × Bytes × Bool)
      → IsIndexed c.0
      → IsIndexed (insert_as parse p c)
  unfolding insert_as insert_keyed
  insert_as-Indexed p (x, target, cut) i =
      let (k, j) = key_for-Indexed target x.tables x.entries i in
      post-Indexed _ (key_for target x.tables).1 x.entries k j

  insert_parsed-Indexed :
      (p : Parsed Time) (x : Index parse) → IsIndexed x → IsIndexed (insert_parsed parse p x)
  unfolding insert_parsed choose_parsed
  insert_parsed-Indexed p x i =
      insert_as-Indexed p (choose_parsed parse p x) (choose-Indexed _ _ x i)

  end_line-Indexed :
      (skipping : Bool) (x : Index parse) → IsIndexed x → IsIndexed (end_line parse skipping x)
  unfolding end_line insert
  end_line-Indexed true x i = i
  end_line-Indexed false x i = insert_parsed-Indexed (parse x.pending) x i

  newline-Indexed : (x : Index parse) → IsIndexed x → IsIndexed (newline parse x)
  unfolding newline
  newline-Indexed x i = end_line-Indexed x.skipping x i

  collect-Indexed :
      (byte : ℕ) (skipping : Bool) (x : Index parse)
      → IsIndexed x
      → IsIndexed (collect parse byte skipping x)
  unfolding collect
  collect-Indexed byte true x i = i
  collect-Indexed byte false x i = elim (Bool-cases (length x.pending == max_line)) [
    | inl t ↦ rw t i
    | inr t ↦ rw t i
  ]

  feed_read-Indexed :
      (ends : Bool) (byte : ℕ) (x : Index parse)
      → IsIndexed x
      → IsIndexed (feed_read parse ends byte x)
  unfolding feed_read
  feed_read-Indexed true byte x i = newline-Indexed x i
  feed_read-Indexed false byte x i = collect-Indexed byte x.skipping x i

  feed-Indexed : (byte : ℕ) (x : Index parse) → IsIndexed x → IsIndexed (feed parse byte x)
  unfolding feed
  feed-Indexed byte x i =
      feed_read-Indexed (byte == b'\n') byte (record x { next_read = x.next_read + 1 }) i

  feed_all-Indexed :
      (bytes : Bytes) (x : Index parse) → IsIndexed x → IsIndexed (feed_all parse bytes x)
  unfolding feed_all
  feed_all-Indexed [] x i = i
  feed_all-Indexed (byte ∷ bytes) x i = feed_all-Indexed bytes _ (feed-Indexed byte x i)

  append_batch-Indexed :
      (b : Bool) (bytes : Bytes) (x y : Index parse)
      → IsIndexed x
      → append_batch parse b bytes x ≡ some y
      → IsIndexed y
  unfolding append_batch
  append_batch-Indexed true bytes x y i e = absurd (cc e)
  append_batch-Indexed false bytes x y i e =
      let same : evict parse (feed_all parse bytes x) ≡ y = cc e in
      subst IsIndexed same (evict-Indexed (feed_all parse bytes x) (feed_all-Indexed bytes x i))

  pub new_index-Indexed : (start : ℕ) → IsIndexed (new_index parse start)
  unfolding new_index
  new_index-Indexed start = no_tables-Indexed

  keeps_postings :
      (offset : ℕ) (bytes : Bytes) (x y : Index parse)
      → IsIndexed x
      → append parse offset bytes x ≡ some y
      → IsIndexed y
  unfolding append
  keeps_postings offset bytes x y i e = append_batch-Indexed _ bytes x y i e

  -- The symbols of the entries stand for these texts, told by the starts of the entries.
  abbrev pub Texts : (text : ℕ → Bytes) → Index parse → Type 0
  Texts text x = All (λ e. resolve e.target x.tables.targets ≡ text e.start) x.entries

  named_before :
      (text : ℕ → Bytes) (before : ℕ) (targets : List Bytes) (es : List (Entry parse))
      → All (λ e. e.target < length targets) es
      → All (λ e. resolve e.target targets ≡ text e.start) es
      → All (Stands parse text before targets) es
  named_before text before targets [] k n = tt
  named_before text before targets (e ∷ es) (k, ks) (n, ns) =
      ((k, λ h. n), named_before text before targets es ks ns)

  -- Where the entries are in order, the postings of every symbol and of every level are the starts of
  -- exactly the entries with that symbol or level, in file order, and every entry has a symbol of the
  -- pool: after an accepted batch, with the evictions inside it, which intern the targets anew and give
  -- the entries new symbols, postings and symbols are so again, and the entries of before the batch stand
  -- for the same texts.
  pub append-Indexed :
      (offset : ℕ) (bytes : Bytes) (x y : Index parse) (text : ℕ → Bytes)
      → Ordered parse x
      → IsIndexed x
      → Texts text x
      → append parse offset bytes x ≡ some y
      → IsIndexed y
        × All
            (λ e. e.start < x.line_start → resolve e.target y.tables.targets ≡ text e.start)
            y.entries
  append-Indexed offset bytes x y text o i n e =
      let v : Named parse text x.line_start x = record {
        stand = named_before text x.line_start x.tables.targets x.entries i.keyed n;
        behind = omega arith;
        read_on = o.line_first;
      } in
      (
        keeps_postings offset bytes x y i e,
        All-map _ _ y.entries (λ d s. s.1)
            (append-Named parse text x.line_start offset bytes x y v e).stand,
      )
