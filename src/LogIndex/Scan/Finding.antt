-- ===== src/LogIndex/Scan/Finding.antt =====
-- The binary search finds every entry of an index whose entries are in order.
use clash_nyanpasu_service.Shared.{
  ℕ, zero, suc, ◌/◌, ◌≤◌, ◌<◌, ◌≡◌, refl, sym, ap, ◌∙◌, ◌⊎◌, Bool, inl, inr, Bytes, Option, some,
  List, [], ◌∷◌, length, arith,
}
use clash_nyanpasu_service.LogIndex.{Parsed, Entry}
use clash_nyanpasu_service.LogIndex.Ordered.{Chain}
use clash_nyanpasu_service.LogIndex.Scan.{take, skip, test_middle, find_in, find_entry}

length-take : {A : Type 0} (n : ℕ) (xs : List A) → length (take n xs) ≤ n
unfolding take
length-take n [] = omega arith
length-take zero (x ∷ xs) = omega arith
length-take (suc n) (x ∷ xs) = omega (arith, length-take n xs)

length-skip :
    {A : Type 0} (n k : ℕ) (xs : List A) → length xs ≤ suc k → length (skip (suc n) xs) ≤ k
unfolding skip
length-skip n k [] h = omega arith
length-skip zero k (x ∷ []) h = omega arith
length-skip zero k (x ∷ y ∷ xs) h = omega (arith, h)
length-skip (suc n) zero (x ∷ []) h = omega arith
length-skip (suc n) zero (x ∷ y ∷ xs) h = absurd (omega (arith, h))
length-skip (suc n) (suc k) (x ∷ xs) h = omega (arith, length-skip n k xs (omega (arith, h)))

module _ {Time : Type 0} (parse : Bytes → Parsed Time) (earlier : Time → Time → Bool) where
  abbrev pub Among : Entry parse → List (Entry parse) → Type 0
  Among e [] = ⊥
  Among e (d ∷ ds) = (e ≡ d) ⊎ Among e ds

  Chain-le : (lo hi : ℕ) (es : List (Entry parse)) → Chain parse lo es hi → lo ≤ hi
  Chain-le lo hi [] c = c
  Chain-le lo hi (d ∷ es) (a, b, c) = let k = Chain-le d.end_ hi es c in omega (arith, a, b, k)

  Among-between :
      (lo hi : ℕ) (es : List (Entry parse)) (e : Entry parse)
      → Chain parse lo es hi
      → Among e es
      → (lo ≤ e.start) × (e.start < hi)
  Among-between lo hi [] e c a = absurd a
  Among-between lo hi (d ∷ es) e (a, b, c) (inl same) =
      let start : e.start ≡ d.start = ap (λ x. x.start) same in
      let end_first = Chain-le d.end_ hi es c in
      (omega (arith, a, start), omega (arith, b, start, end_first))
  Among-between lo hi (d ∷ es) e (a, b, c) (inr h) =
      let (k, l) = Among-between d.end_ hi es e c h in (omega (arith, a, b, k), l)

  -- What a place splits a chain into.
  record Split (m lo hi : ℕ) (es : List (Entry parse)) : Type 0 where
    middle : Entry parse
    at : skip m es ≡ middle ∷ skip (suc m) es
    low : Chain parse lo (take m es) middle.start
    long : middle.start < middle.end_
    high : Chain parse middle.end_ (skip (suc m) es) hi
    cover :
        (e : Entry parse)
        → Among e es
        → Among e (take m es) ⊎ (e ≡ middle) ⊎ Among e (skip (suc m) es)

  split :
      (m lo hi : ℕ) (es : List (Entry parse))
      → Chain parse lo es hi
      → m < length es
      → Split m lo hi es
  unfolding take skip
  split m lo hi [] c h = absurd (omega (arith, h))
  split zero lo hi (d ∷ []) (a, b, c) h = record {
    middle = d;
    at = refl;
    low = a;
    long = b;
    high = c;
    cover = λ e k. elim k [ inl same ↦ inr (inl same) | inr no' ↦ absurd no' ];
  }
  split zero lo hi (d ∷ f ∷ es) (a, b, c) h = record {
    middle = d;
    at = refl;
    low = a;
    long = b;
    high = c;
    cover = λ e k. elim k [ inl same ↦ inr (inl same) | inr there ↦ inr (inr there) ];
  }
  split (suc m) lo hi (d ∷ es) (a, b, c) h =
      let s = split m d.end_ hi es c (omega (arith, h)) in
      record {
        middle = s.middle;
        at = s.at;
        low = (a, b, s.low);
        long = s.long;
        high = s.high;
        cover = λ e k. elim k [
          | inl same ↦ inl (inl same)
          | inr there ↦ elim (s.cover e there) [
            | inl l ↦ inl (inr l)
            | inr (inl same) ↦ inr (inl same)
            | inr (inr r) ↦ inr (inr r)
          ]
        ];
      }

  test_middle-below :
      (start : ℕ) (below above : Option (Entry parse)) (e : Entry parse) (es : List (Entry parse))
      → start < e.start
      → test_middle parse earlier start below above (e ∷ es) ≡ below
  unfolding test_middle
  test_middle-below start below above e es h = ground arith

  test_middle-above :
      (start : ℕ) (below above : Option (Entry parse)) (e : Entry parse) (es : List (Entry parse))
      → e.start < start
      → test_middle parse earlier start below above (e ∷ es) ≡ above
  unfolding test_middle
  test_middle-above start below above e es h = ground arith

  test_middle-here :
      (start : ℕ) (below above : Option (Entry parse)) (e : Entry parse) (es : List (Entry parse))
      → e.start ≡ start
      → test_middle parse earlier start below above (e ∷ es) ≡ some e
  unfolding test_middle
  test_middle-here start below above e es h = ground arith

  find_in-finds :
      (fuel lo hi : ℕ) (es : List (Entry parse)) (e : Entry parse)
      → Chain parse lo es hi
      → length es ≤ fuel
      → Among e es
      → find_in parse earlier fuel e.start es ≡ some e
  unfolding find_in
  find_in-finds fuel lo hi [] e c h a = absurd a
  find_in-finds zero lo hi (d ∷ es) e c h a = absurd (omega (arith, h))
  find_in-finds (suc fuel) lo hi (d ∷ es) e c h a =
      let m = length (d ∷ es) / 2 in
      let s = split m lo hi (d ∷ es) c (omega arith) in
      elim (s.cover e a) [
        | inl l ↦
            ap (test_middle parse earlier e.start _ _) s.at
            ∙ (test_middle-below e.start _ _ s.middle (skip (suc m) (d ∷ es))
                  (Among-between lo s.middle.start (take m (d ∷ es)) e s.low l).1
                ∙ find_in-finds fuel lo s.middle.start (take m (d ∷ es)) e s.low
                    (omega (arith, h, length-take m (d ∷ es))) l)
        | inr (inl same) ↦
            ap (test_middle parse earlier e.start _ _) s.at
            ∙ (test_middle-here e.start _ _ s.middle (skip (suc m) (d ∷ es))
                  (sym (ap (λ x. x.start) same))
                ∙ ap some (sym same))
        | inr (inr r) ↦
            let after = Among-between s.middle.end_ hi (skip (suc m) (d ∷ es)) e s.high r in
            ap (test_middle parse earlier e.start _ _) s.at
            ∙ (test_middle-above e.start _ _ s.middle (skip (suc m) (d ∷ es))
                  (omega (arith, s.long, after.0))
                ∙ find_in-finds fuel s.middle.end_ hi (skip (suc m) (d ∷ es)) e s.high
                    (length-skip m fuel (d ∷ es) h) r)
      ]

  -- Where the entries are in order, the binary search for the start of one of them finds it.
  pub find_entry-finds :
      (lo hi : ℕ) (es : List (Entry parse)) (e : Entry parse)
      → Chain parse lo es hi
      → Among e es
      → find_entry parse earlier e.start es ≡ some e
  unfolding find_entry
  find_entry-finds lo hi es e c a = find_in-finds (length es) lo hi es e c (omega arith) a
