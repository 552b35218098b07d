-- ===== src/LogIndex/Names.antt =====
-- The texts that the symbols of the entries stand for: an eviction interns them anew and changes none.
use clash_nyanpasu_service.Shared.{
  ℕ, suc, zero, ◌+◌, ◌≤◌, ◌<◌, ◌≡◌, refl, sym, ◌∙◌, subst, inl, inr, Bytes, bytes_eq, bytes_eq_iff,
  Bool, true, false, ◌||◌, ◌==◌, Option, none, some, List, [], ◌∷◌, ◌++◌, All, All-append, All-map,
  length, length-append, arith, Bool-cases,
}
use clash_nyanpasu_service.LogIndex.{
  max_line, Parsed, Tables, no_tables, next_place, get, resolve, interned, key_or, key_for, Entry,
  Index, post, rebuild, must_go, evicted, removed, evict_to, evict, fits, choose_again, choose,
  insert_as, insert_keyed, choose_parsed, insert_parsed, insert,
}
use clash_nyanpasu_service.LogIndex.Append.{
  end_line, newline, collect, feed_read, feed, feed_all, append_batch, append,
}

next_place-some :
    (o : Option ℕ) (key : ℕ) → next_place o ≡ some key → (k : ℕ) × (o ≡ some k) × (suc k ≡ key)
unfolding next_place
next_place-some none key e = absurd (cc e)
next_place-some (some k) key e = (k, refl, cc e)

first_text :
    (name t : Bytes) (ts : List Bytes) (key : ℕ)
    → bytes_eq name t ≡ true
    → 0 ≡ key
    → resolve key (t ∷ ts) ≡ name
unfolding resolve
first_text name t ts key h e =
    subst (λ n. resolve n (t ∷ ts) ≡ name) e (sym ((bytes_eq_iff name t).0 h))

later_text : (k : ℕ) (t : Bytes) (ts : List Bytes) → resolve (suc k) (t ∷ ts) ≡ resolve k ts
unfolding resolve
later_text k t ts = refl

-- A symbol stands for the text it was found by.
pub resolve-get :
    (name : Bytes) (ts : List Bytes) (key : ℕ) → get name ts ≡ some key → resolve key ts ≡ name
unfolding get
resolve-get name [] key e = absurd (cc e)
resolve-get name (t ∷ ts) key e = elim (Bool-cases (bytes_eq name t)) [
  | inl h ↦ first_text name t ts key h (cc (rw h at e))
  | inr h ↦
      let (k, f, same) = next_place-some (get name ts) key (rw h at e) in
      subst (λ n. resolve n (t ∷ ts) ≡ name) same (later_text k t ts ∙ resolve-get name ts k f)
]

next_place-lt :
    (o : Option ℕ) (n key : ℕ)
    → ((k : ℕ) → o ≡ some k → k < n)
    → next_place o ≡ some key
    → key < suc n
unfolding next_place
next_place-lt none n key h e = absurd (cc e)
next_place-lt (some k) n key h e = let same : suc k ≡ key = cc e in omega (arith, h k refl, same)

pub get-lt : (name : Bytes) (ts : List Bytes) (key : ℕ) → get name ts ≡ some key → key < length ts
unfolding get
get-lt name [] key e = absurd (cc e)
get-lt name (t ∷ ts) key e = elim (Bool-cases (bytes_eq name t)) [
  | inl h ↦ let same : 0 ≡ key = cc (rw h at e) in omega (arith, same)
  | inr h ↦ next_place-lt (get name ts) (length ts) key (get-lt name ts) (rw h at e)
]

resolve-append : (k : ℕ) (ts us : List Bytes) → k < length ts → resolve k (ts ++ us) ≡ resolve k ts
unfolding resolve
resolve-append k [] us h = absurd (omega (arith, h))
resolve-append zero (t ∷ ts) us h = refl
resolve-append (suc k) (t ∷ ts) us h = resolve-append k ts us (omega (arith, h))

resolve_last : (name : Bytes) (ts : List Bytes) → resolve (length ts) (ts ++ name ∷ []) ≡ name
unfolding resolve
resolve_last name [] = refl
resolve_last name (t ∷ ts) = resolve_last name ts

-- A symbol that is given out is of the pool and stands for its text, and no other symbol changes.
record Keyed (name : Bytes) (t : Tables) (r : ℕ × Tables) : Type 0 where
  within : r.0 < length r.1.targets
  named : resolve r.0 r.1.targets ≡ name
  longer : length t.targets ≤ length r.1.targets
  keeps : (k : ℕ) → k < length t.targets → resolve k r.1.targets ≡ resolve k t.targets

key_or-Keyed :
    (name : Bytes) (o : Option ℕ) (t : Tables)
    → get name t.targets ≡ o
    → Keyed name t (key_or name o t)
unfolding key_or
key_or-Keyed name (some key) t e = record {
  within = get-lt name t.targets key e;
  named = resolve-get name t.targets key e;
  longer = omega arith;
  keeps = λ k h. refl;
}
key_or-Keyed name none t e =
    let more = length-append t.targets (name ∷ []) in
    record {
      within = omega (arith, more);
      named = resolve_last name t.targets;
      longer = omega (arith, more);
      keeps = λ k h. resolve-append k t.targets (name ∷ []) h;
    }

key_for-Keyed : (name : Bytes) (t : Tables) → Keyed name t (key_for name t)
unfolding key_for
key_for-Keyed name t = key_or-Keyed name (get name t.targets) t refl

module _ {Time : Type 0} (parse : Bytes → Parsed Time) (text : ℕ → Bytes) (before : ℕ) where
  -- The symbol of an entry is of the pool, and where the entry starts before the position it stands for the
  -- text that is given to that start.
  abbrev pub Stands : List Bytes → Entry parse → Type 0
  Stands targets e =
      (e.target < length targets) × (e.start < before → resolve e.target targets ≡ text e.start)

  rebuild-keeps :
      (old : List Bytes) (es : List (Entry parse)) (t : Tables) (k : ℕ)
      → k < length t.targets
      → (k < length (rebuild parse old es t).1.targets)
        × (resolve k (rebuild parse old es t).1.targets ≡ resolve k t.targets)
  unfolding rebuild post
  rebuild-keeps old [] t k h = (h, refl)
  rebuild-keeps old (e ∷ es) t k h =
      let keyed = key_for-Keyed (resolve e.target old) t in
      let (l, same) = rebuild-keeps old es _ k (omega (arith, h, keyed.longer)) in
      (l, same ∙ keyed.keeps k h)

  rebuild-Stands :
      (old : List Bytes) (es : List (Entry parse)) (t : Tables)
      → All (Stands old) es
      → All (Stands (rebuild parse old es t).1.targets) (rebuild parse old es t).0
  unfolding rebuild post
  rebuild-Stands old [] t a = tt
  rebuild-Stands old (e ∷ es) t (s, a) =
      let keyed = key_for-Keyed (resolve e.target old) t in
      let (l, same) = rebuild-keeps old es _ (key_for (resolve e.target old) t).0 keyed.within in
      ((l, λ h. same ∙ (keyed.named ∙ s.1 h)), rebuild-Stands old es _ a)

  evicted-All :
      (P : Entry parse → Type 0) (floor : ℕ) (es : List (Entry parse))
      → All P es
      → All P (evicted parse floor es)
  unfolding evicted
  evicted-All P floor [] a = tt
  evicted-All P floor (e ∷ es) (k, a) = elim (Bool-cases (must_go parse floor e es)) [
    | inl t ↦ rw t (evicted-All P floor es a)
    | inr t ↦ rw t (k, a)
  ]

  -- An index whose entries stand for these texts, and which reads on from the position.
  pub record Named (x : Index parse) : Type 0 where
    pub stand : All (Stands x.tables.targets) x.entries
    pub behind : before ≤ x.line_start
    pub read_on : before ≤ x.next_read

  evict_to-Named : (floor : ℕ) (x : Index parse) → Named x → Named (evict_to parse floor x)
  unfolding evict_to
  evict_to-Named floor x v = elim (Bool-cases (removed parse floor x.entries)) [
    | inl t ↦ rw t (record {
      stand = rebuild-Stands x.tables.targets _ no_tables (evicted-All _ floor x.entries v.stand);
      behind = v.behind;
      read_on = v.read_on;
    })
    | inr t ↦ rw t v
  ]

  evict-Named : (x : Index parse) → Named x → Named (evict parse x)
  unfolding evict
  evict-Named x v = evict_to-Named _ x v

  choose_again-Named :
      (target : Bytes) (cut : Bool) (x : Index parse)
      → Named x
      → Named (choose_again parse target cut x).0
  unfolding choose_again
  choose_again-Named target cut x v = elim (Bool-cases (fits parse target x)) [
    | inl t ↦ rw t v
    | inr t ↦ rw t v
  ]

  choose-Named :
      (target : Bytes) (cut : Bool) (x : Index parse)
      → Named x
      → Named (choose parse target cut x).0
  unfolding choose
  choose-Named target cut x v =
      elim (Bool-cases (interned target x.tables.targets || fits parse target x)) [
        | inl t ↦ rw t v
        | inr t ↦ rw t (choose_again-Named target cut _ (evict-Named x v))
      ]

  insert_as-Named :
      (p : Parsed Time) (c : Index parse × Bytes × Bool) → Named c.0 → Named (insert_as parse p c)
  unfolding insert_as insert_keyed post
  insert_as-Named p (x, target, cut) v =
      let keyed = key_for-Keyed target x.tables in
      let kept : (e : Entry parse)
          → Stands x.tables.targets e
          → Stands (key_for target x.tables).1.targets e =
        λ e s. (omega (arith, s.0, keyed.longer), λ h. keyed.keeps e.target s.0 ∙ s.1 h) in
      record {
        stand =
            All-append _ x.entries (_ ∷ []) (All-map _ _ x.entries kept v.stand)
              ((keyed.within, λ h. absurd (omega (arith, h, v.behind))), tt);
        behind = v.behind;
        read_on = v.read_on;
      }

  insert_parsed-Named :
      (p : Parsed Time) (x : Index parse) → Named x → Named (insert_parsed parse p x)
  unfolding insert_parsed choose_parsed
  insert_parsed-Named p x v = insert_as-Named p (choose_parsed parse p x) (choose-Named _ _ x v)

  end_line-Named : (skipping : Bool) (x : Index parse) → Named x → Named (end_line parse skipping x)
  unfolding end_line insert
  end_line-Named true x v = v
  end_line-Named false x v = insert_parsed-Named (parse x.pending) x v

  newline-Named : (x : Index parse) → Named x → Named (newline parse x)
  unfolding newline
  newline-Named x v =
      let w = end_line-Named x.skipping x v in
      record { stand = w.stand; behind = w.read_on; read_on = w.read_on }

  collect-Named :
      (byte : ℕ) (skipping : Bool) (x : Index parse)
      → Named x
      → Named (collect parse byte skipping x)
  unfolding collect
  collect-Named byte true x v = v
  collect-Named byte false x v = elim (Bool-cases (length x.pending == max_line)) [
    | inl t ↦ rw t (record { stand = v.stand; behind = v.behind; read_on = v.read_on })
    | inr t ↦ rw t (record { stand = v.stand; behind = v.behind; read_on = v.read_on })
  ]

  feed_read-Named :
      (ends : Bool) (byte : ℕ) (x : Index parse) → Named x → Named (feed_read parse ends byte x)
  unfolding feed_read
  feed_read-Named true byte x v = newline-Named x v
  feed_read-Named false byte x v = collect-Named byte x.skipping x v

  feed-Named : (byte : ℕ) (x : Index parse) → Named x → Named (feed parse byte x)
  unfolding feed
  feed-Named byte x v =
      feed_read-Named (byte == b'\n') byte (record x { next_read = x.next_read + 1 })
        (record { stand = v.stand; behind = v.behind; read_on = omega (arith, v.read_on) })

  feed_all-Named : (bytes : Bytes) (x : Index parse) → Named x → Named (feed_all parse bytes x)
  unfolding feed_all
  feed_all-Named [] x v = v
  feed_all-Named (byte ∷ bytes) x v = feed_all-Named bytes _ (feed-Named byte x v)

  append_batch-Named :
      (b : Bool) (bytes : Bytes) (x y : Index parse)
      → Named x
      → append_batch parse b bytes x ≡ some y
      → Named y
  unfolding append_batch
  append_batch-Named true bytes x y v e = absurd (cc e)
  append_batch-Named false bytes x y v e =
      let same : evict parse (feed_all parse bytes x) ≡ y = cc e in
      subst Named same (evict-Named (feed_all parse bytes x) (feed_all-Named bytes x v))

  pub append-Named :
      (offset : ℕ) (bytes : Bytes) (x y : Index parse)
      → Named x
      → append parse offset bytes x ≡ some y
      → Named y
  unfolding append
  append-Named offset bytes x y v e = append_batch-Named _ bytes x y v e
