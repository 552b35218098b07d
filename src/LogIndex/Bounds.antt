-- ===== src/LogIndex/Bounds.antt =====
-- The bounds of the index: entries, window, and the bytes of an unfinished line.
use clash_nyanpasu_service.Shared.{
  ℕ, ◌-◌, ◌≤◌, ◌≡◌, suc, ap, refl, subst, inl, inr, Bytes, Bool, true, false, some, List, [], ◌∷◌,
  All, length, arith, Bool-cases,
}
use clash_nyanpasu_service.LogIndex.{
  max_entries, max_window, Parsed, Entry, Index, evicted, removed, must_go, evict_to, evict,
  rebuild, Tables, no_tables,
}
use clash_nyanpasu_service.LogIndex.Append.{feed_all, append_batch, append}
use clash_nyanpasu_service.LogIndex.Ordered.{Chain, Ordered, evict-Ordered, feed_all-Ordered}

module _ {Time : Type 0} (parse : Bytes → Parsed Time) where
  abbrev pub IsRecent : ℕ → Entry parse → Type 0
  IsRecent floor e = floor ≤ e.start

  Chain-IsRecent :
      (floor lo hi : ℕ) (es : List (Entry parse))
      → floor ≤ lo
      → Chain parse lo es hi
      → All (IsRecent floor) es
  Chain-IsRecent floor lo hi [] k c = tt
  Chain-IsRecent floor lo hi (e ∷ es) k (a, b, c) =
      (omega arith, Chain-IsRecent floor e.end_ hi es (omega arith) c)

  kept_recent :
      (floor : ℕ) (e : Entry parse) (es : List (Entry parse))
      → must_go parse floor e es ≡ false
      → floor ≤ e.start
  unfolding must_go
  kept_recent floor e es t = ground (arith)

  kept_few :
      (floor : ℕ) (e : Entry parse) (es : List (Entry parse))
      → must_go parse floor e es ≡ false
      → length (e ∷ es) ≤ max_entries
  unfolding must_go
  kept_few floor e es t = ground (arith)

  evicted-IsRecent :
      (floor lo hi : ℕ) (es : List (Entry parse))
      → Chain parse lo es hi
      → All (IsRecent floor) (evicted parse floor es)
  unfolding evicted
  evicted-IsRecent floor lo hi [] c = tt
  evicted-IsRecent floor lo hi (e ∷ es) (a, b, c) = elim (Bool-cases (must_go parse floor e es)) [
    | inl t ↦ rw t (evicted-IsRecent floor e.end_ hi es c)
    | inr t ↦ rw t (
      kept_recent floor e es t,
      Chain-IsRecent floor e.end_ hi es (omega (arith, kept_recent floor e es t)) c,
    )
  ]

  length-evicted :
      (floor : ℕ) (es : List (Entry parse)) → length (evicted parse floor es) ≤ max_entries
  unfolding evicted
  length-evicted floor [] = omega arith
  length-evicted floor (e ∷ es) = elim (Bool-cases (must_go parse floor e es)) [
    | inl t ↦ rw t (length-evicted floor es)
    | inr t ↦ rw t (kept_few floor e es t)
  ]

  -- Nothing goes where the front stays.
  evicted_all :
      (floor : ℕ) (es : List (Entry parse))
      → removed parse floor es ≡ false
      → evicted parse floor es ≡ es
  unfolding evicted removed
  evicted_all floor [] t = refl
  evicted_all floor (e ∷ es) t = rw t refl

  length-rebuild :
      (old : List Bytes) (es : List (Entry parse)) (t : Tables)
      → length (rebuild parse old es t).0 ≡ length es
  unfolding rebuild
  length-rebuild old [] t = refl
  length-rebuild old (e ∷ es) t = ap suc (length-rebuild old es _)

  rebuild-IsRecent :
      (floor : ℕ) (old : List Bytes) (es : List (Entry parse)) (t : Tables)
      → All (IsRecent floor) es
      → All (IsRecent floor) (rebuild parse old es t).0
  unfolding rebuild
  rebuild-IsRecent floor old [] t a = tt
  rebuild-IsRecent floor old (e ∷ es) t (a, as') = (a, rebuild-IsRecent floor old es _ as')

  length-evict_to :
      (floor : ℕ) (x : Index parse) → length (evict_to parse floor x).entries ≤ max_entries
  unfolding evict_to
  length-evict_to floor x = elim (Bool-cases (removed parse floor x.entries)) [
    | inl t ↦ rw t (
        omega (
          arith,
          length-rebuild x.tables.targets (evicted parse floor x.entries) no_tables,
          length-evicted floor x.entries,
        ))
    | inr t ↦ rw t (
        subst (λ es. length es ≤ max_entries) (evicted_all floor x.entries t)
          (length-evicted floor x.entries))
  ]

  evict_to-IsRecent :
      (floor : ℕ) (x : Index parse)
      → Ordered parse x
      → All (IsRecent floor) (evict_to parse floor x).entries
  unfolding evict_to
  evict_to-IsRecent floor x o =
      let recent = evicted-IsRecent floor 0 _ x.entries o.chain in
      elim (Bool-cases (removed parse floor x.entries)) [
        | inl t ↦ rw t (rebuild-IsRecent floor _ _ _ recent)
        | inr t ↦ rw t (subst (All (IsRecent floor)) (evicted_all floor x.entries t) recent)
      ]

  read-evict_to : (floor : ℕ) (x : Index parse) → (evict_to parse floor x).next_read ≡ x.next_read
  unfolding evict_to
  read-evict_to floor x = elim (Bool-cases (removed parse floor x.entries)) [
    | inl t ↦ rw t refl
    | inr t ↦ rw t refl
  ]

  -- The bounds, with the entries in the order of the file.
  pub record Bounded (x : Index parse) : Type 0 where
    pub few : length x.entries ≤ max_entries
    pub recent : All (IsRecent (x.next_read - max_window)) x.entries
    pub ordered : Ordered parse x

  evict-Bounded : (x : Index parse) → Ordered parse x → Bounded (evict parse x)
  unfolding evict
  evict-Bounded x o = record {
    few = length-evict_to _ x;
    recent = rw (read-evict_to (x.next_read - max_window) x) (evict_to-IsRecent _ x o);
    ordered = evict-Ordered parse x o;
  }

  append_batch-Bounded :
      (b : Bool) (bytes : Bytes) (x y : Index parse)
      → Ordered parse x
      → append_batch parse b bytes x ≡ some y
      → Bounded y
  unfolding append_batch
  append_batch-Bounded true bytes x y o e = absurd (cc e)
  append_batch-Bounded false bytes x y o e =
      let same : evict parse (feed_all parse bytes x) ≡ y = cc e in
      subst Bounded same (evict-Bounded (feed_all parse bytes x) (feed_all-Ordered parse bytes x o))

  -- After an accepted batch the index has at most 250000 entries, none of which starts more than 32 MiB before
  -- the end of what is read, and at most 256 KiB of an unfinished line, and the entries lie one after another
  -- in the file before that line, where they did so before.
  pub append-Bounded :
      (offset : ℕ) (bytes : Bytes) (x y : Index parse)
      → Ordered parse x
      → append parse offset bytes x ≡ some y
      → Bounded y
  unfolding append
  append-Bounded offset bytes x y o e = append_batch-Bounded _ bytes x y o e
