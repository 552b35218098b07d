-- ===== src/LogIndex/Scan/Candidates.antt =====
-- The entries that a search looks at are entries of the index: every posting has its entry.
use clash_nyanpasu_service.Shared.{
  ℕ, ◌≡◌, refl, sym, subst, inl, inr, Bytes, Bool, true, false, ltb, Option, none, some, List, [],
  ◌∷◌, All, All-append, All-map, length, length-append, map, arith, Bool-cases,
}
use clash_nyanpasu_service.LogIndex.{Level, level_number, Parsed, Entry, Index}
use clash_nyanpasu_service.LogIndex.Ordered.{Chain, Ordered}
use clash_nyanpasu_service.LogIndex.Scan.Finding.{Among, find_entry-finds}
use clash_nyanpasu_service.LogIndex.Postings.{starts, Indexed}
use clash_nyanpasu_service.LogIndex.Scan.{
  Filter, turned, first_part, last_part, towards, shorter, present, find_entry, by_target, by_level,
  from_posting, candidates,
}

module _ {A : Type 0} (P : A → Type 0) where
  pub All-turned : (xs : List A) → All P xs → All P (turned xs)
  unfolding turned
  All-turned [] a = tt
  All-turned (x ∷ xs) (a, as') = All-append P (turned xs) (x ∷ []) (All-turned xs as') (a, tt)

  All-first_part : (p : A → Bool) (xs : List A) → All P xs → All P (first_part p xs)
  unfolding first_part
  All-first_part p [] a = tt
  All-first_part p (x ∷ xs) (a, as') = elim (Bool-cases (p x)) [
    | inl t ↦ rw t (a, All-first_part p xs as')
    | inr t ↦ rw t tt
  ]

  All-last_part : (p : A → Bool) (xs : List A) → All P xs → All P (last_part p xs)
  unfolding last_part
  All-last_part p [] a = tt
  All-last_part p (x ∷ xs) (a, as') = elim (Bool-cases (p x)) [
    | inl t ↦ rw t (All-last_part p xs as')
    | inr t ↦ rw t (a, as')
  ]

  All-towards : (b : Bool) (p : A → Bool) (xs : List A) → All P xs → All P (towards b p xs)
  unfolding towards
  All-towards true p xs a = All-turned _ (All-first_part p xs a)
  All-towards false p xs a = All-last_part p xs a

pub length-turned : {A : Type 0} (xs : List A) → length (turned xs) ≡ length xs
unfolding turned
length-turned [] = refl
length-turned (x ∷ xs) = omega (arith, length-append (turned xs) (x ∷ []), length-turned xs)

All-through :
    {A B : Type 0} (P : A → Type 0) (Q : B → Type 0) (f : A → B) (xs : List A)
    → ((a : A) → P a → Q (f a))
    → All P xs
    → All Q (map f xs)
All-through P Q f [] k a = tt
All-through P Q f (x ∷ xs) k (a, as') = (k x a, All-through P Q f xs k as')

module _ {Time : Type 0} (parse : Bytes → Parsed Time) (earlier : Time → Time → Bool) where
  abbrev pub Met : List (Entry parse) → Option (Entry parse) → Type 0
  Met es none = ⊥
  Met es (some e) = Among parse earlier e es

  -- A start of an entry.
  abbrev StartsOne : List (Entry parse) → ℕ → Type 0
  StartsOne es n = (e : Entry parse) × Among parse earlier e es × (e.start ≡ n)

  StartsOne-cons :
      (d : Entry parse) (es : List (Entry parse)) (n : ℕ) → StartsOne es n → StartsOne (d ∷ es) n
  StartsOne-cons d es n (e, a, h) = (e, inr a, h)

  starts-StartsOne :
      (p : Entry parse → Bool) (es : List (Entry parse)) → All (StartsOne es) (starts parse p es)
  unfolding starts
  starts-StartsOne p [] = tt
  starts-StartsOne p (d ∷ es) = elim (Bool-cases (p d)) [
    | inl t ↦
        rw t ((d, inl refl, refl), All-map _ _ _ (StartsOne-cons d es) (starts-StartsOne p es))
    | inr t ↦ rw t (All-map _ _ _ (StartsOne-cons d es) (starts-StartsOne p es))
  ]

  StartsOne-Met :
      (hi n : ℕ) (es : List (Entry parse))
      → Chain parse 0 es hi
      → StartsOne es n
      → Met es (find_entry parse earlier n es)
  StartsOne-Met hi n es c (e, a, h) =
      subst (λ k. Met es (find_entry parse earlier k es)) h
        (subst (Met es) (sym (find_entry-finds parse earlier 0 hi es e c a)) a)

  starts-Met :
      (hi : ℕ) (p : Entry parse → Bool) (es : List (Entry parse))
      → Chain parse 0 es hi
      → All (λ n. Met es (find_entry parse earlier n es)) (starts parse p es)
  starts-Met hi p es c = All-map _ _ _ (λ n. StartsOne-Met hi n es c) (starts-StartsOne p es)

  entries-Among : (es : List (Entry parse)) → All (λ e. Among parse earlier e es) es
  entries-Among [] = tt
  entries-Among (e ∷ es) = (inl refl, All-map _ _ _ (λ d a. inr a) (entries-Among es))

  abbrev HasEntry : List (Entry parse) → ℕ → Type 0
  HasEntry es n = Met es (find_entry parse earlier n es)

  abbrev AllMet : List (Entry parse) → Option (List ℕ) → Type 0
  AllMet es none = Unit
  AllMet es (some ps) = All (HasEntry es) ps

  present-AllMet :
      (es : List (Entry parse)) (ps : List ℕ) → All (HasEntry es) ps → AllMet es (present ps)
  unfolding present
  present-AllMet es [] a = tt
  present-AllMet es (p ∷ ps) a = a

  by_target-AllMet :
      (x : Index parse) (key : Option ℕ)
      → Ordered parse x
      → Indexed parse x.tables x.entries
      → AllMet x.entries (by_target parse earlier x key)
  unfolding by_target
  by_target-AllMet x none o i = tt
  by_target-AllMet x (some key) o i = present-AllMet x.entries (x.tables.postings key) (
      subst (All (HasEntry x.entries)) (sym (i.by_target key))
        (starts-Met x.line_start _ x.entries o.chain))

  by_level-AllMet :
      (x : Index parse) (levels : List Level)
      → Ordered parse x
      → Indexed parse x.tables x.entries
      → AllMet x.entries (by_level parse earlier x levels)
  unfolding by_level
  by_level-AllMet x [] o i = tt
  by_level-AllMet x (l ∷ []) o i =
      subst (All (HasEntry x.entries)) (sym (i.by_level (level_number l)))
        (starts-Met x.line_start _ x.entries o.chain)
  by_level-AllMet x (l ∷ k ∷ ks) o i = tt

  shorter-AllMet :
      (es : List (Entry parse)) (a b : Option (List ℕ))
      → AllMet es a
      → AllMet es b
      → AllMet es (shorter a b)
  unfolding shorter
  shorter-AllMet es (some a) (some b) h k = elim (Bool-cases (ltb (length a) (length b))) [
    | inl t ↦ rw t h
    | inr t ↦ rw t k
  ]
  shorter-AllMet es (some a) none h k = h
  shorter-AllMet es none b h k = k

  from_posting-Met :
      (reverse : Bool) (boundary : ℕ) (x : Index parse) (o : Option (List ℕ))
      → AllMet x.entries o
      → All (Met x.entries) (from_posting parse earlier reverse boundary x o)
  unfolding from_posting
  from_posting-Met reverse boundary x none h =
      All-through _ _ some _ (λ e a. a)
        (All-towards _ reverse _ x.entries (entries-Among x.entries))
  from_posting-Met reverse boundary x (some ps) h =
      All-through _ _ _ _ (λ n a. a) (All-towards (HasEntry x.entries) reverse _ ps h)

  pub candidates-Met :
      (reverse : Bool) (boundary : ℕ) (key : Option ℕ) (filter : Filter Time) (x : Index parse)
      → Ordered parse x
      → Indexed parse x.tables x.entries
      → All (Met x.entries) (candidates parse earlier reverse boundary key filter x)
  unfolding candidates
  candidates-Met reverse boundary key filter x o i = from_posting-Met reverse boundary x _ (
      shorter-AllMet x.entries _ _ (by_target-AllMet x key o i)
        (by_level-AllMet x filter.levels o i))
