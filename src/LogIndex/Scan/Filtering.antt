-- ===== src/LogIndex/Scan/Filtering.antt =====
-- What the tests of the search's loop mean of the entry that passes them.
use clash_nyanpasu_service.Shared.{
  ℕ, ◌≡◌, refl, sym, ap, ◌∙◌, subst, ◌⊎◌, inl, inr, Bytes, Bool, true, false, ◌==◌, Option, none,
  some, List, [], ◌∷◌, arith, Bool-cases, if◌then◌else◌,
}
use clash_nyanpasu_service.LogIndex.{
  Level, trace, debug, info, warn, error, fatal, unknown, level_number, get, resolve, Parsed, Entry,
  Index,
}
use clash_nyanpasu_service.LogIndex.Names.{resolve-get}
use clash_nyanpasu_service.LogIndex.Scan.{
  Filter, has_level, level_matches, target_key, target_matches, from_matches, to_matches, matches,
  unknown_target,
}
use clash_nyanpasu_service.LogIndex.Scan.Finding.{Among}

-- A level is told by its number.
numbered : ℕ → Level
numbered n =
    if n == 0
    then trace
    else if n == 1
    then debug
    else if n == 2
    then info
    else if n == 3
    then warn
    else if n == 4
    then error
    else if n == 5
    then fatal
    else unknown

numbered-level_number : (l : Level) → numbered (level_number l) ≡ l
unfolding level_number numbered
numbered-level_number trace = refl
numbered-level_number debug = refl
numbered-level_number info = refl
numbered-level_number warn = refl
numbered-level_number error = refl
numbered-level_number fatal = refl
numbered-level_number unknown = refl

same_level : (l k : Level) → level_number l == level_number k ≡ true → l ≡ k
same_level l k h =
    let same : level_number l ≡ level_number k = ground arith in
    sym (numbered-level_number l) ∙ (ap numbered same ∙ numbered-level_number k)

abbrev pub HasLevel : Level → List Level → Type 0
HasLevel l [] = ⊥
HasLevel l (k ∷ ks) = (l ≡ k) ⊎ HasLevel l ks

has_level-HasLevel : (l : Level) (ks : List Level) → has_level l ks ≡ true → HasLevel l ks
unfolding has_level
has_level-HasLevel l [] h = absurd (cc h)
has_level-HasLevel l (k ∷ ks) h = elim (Bool-cases (level_number l == level_number k)) [
  | inl t ↦ inl (same_level l k t)
  | inr t ↦ inr (has_level-HasLevel l ks (rw t at h))
]

module _ {Time : Type 0} (parse : Bytes → Parsed Time) (earlier : Time → Time → Bool) where
  -- The levels of a filter: none asks for any level.
  abbrev pub AnyOf : List Level → Level → Type 0
  AnyOf [] l = Unit
  AnyOf (k ∷ ks) l = HasLevel l (k ∷ ks)

  -- An entry of the index that has one of the levels of the filter and its target, and a time from its
  -- first bound on and before its second, where the filter has these.
  pub record Found (filter : Filter Time) (x : Index parse) (e : Entry parse) : Type 0 where
    pub among : Among parse earlier e x.entries
    pub level_asked : AnyOf filter.levels e.level
    pub target_asked :
        (name : Bytes) → filter.target ≡ some name → resolve e.target x.tables.targets ≡ name
    pub not_before :
        (from : Time)
        → filter.from_ms ≡ some from
        → (t : Time) × (e.timestamp ≡ some t) × (earlier t from ≡ false)
    pub before_end :
        (to : Time)
        → filter.to_ms ≡ some to
        → (t : Time) × (e.timestamp ≡ some t) × (earlier t to ≡ true)

  level_matches-AnyOf :
      (ls : List Level) (e : Entry parse)
      → level_matches parse earlier ls e ≡ true
      → AnyOf ls e.level
  unfolding level_matches
  level_matches-AnyOf [] e h = tt
  level_matches-AnyOf (l ∷ ls) e h = has_level-HasLevel e.level (l ∷ ls) h

  known_named :
      (name : Bytes) (x : Index parse) (e : Entry parse) (o : Option ℕ)
      → get name x.tables.targets ≡ o
      → unknown_target parse earlier (some name) o ≡ false
      → target_matches parse earlier o e ≡ true
      → resolve e.target x.tables.targets ≡ name
  unfolding unknown_target target_matches
  known_named name x e none f u h = absurd (cc u)
  known_named name x e (some key) f u h =
      let same : key ≡ e.target = ground arith in
      subst (λ k. resolve k x.tables.targets ≡ name) same (resolve-get name x.tables.targets key f)

  target_matches-named :
      (target : Option Bytes) (x : Index parse) (e : Entry parse) (name : Bytes)
      → unknown_target parse earlier target (target_key parse earlier target x) ≡ false
      → target_matches parse earlier (target_key parse earlier target x) e ≡ true
      → target ≡ some name
      → resolve e.target x.tables.targets ≡ name
  unfolding target_key
  target_matches-named none x e name u h same = absurd (cc same)
  target_matches-named (some n) x e name u h same =
      known_named n x e (get n x.tables.targets) refl u h ∙ cc same

  from_matches-time :
      (bound : Option Time) (e : Entry parse) (stamp : Option Time) (from : Time)
      → e.timestamp ≡ stamp
      → from_matches parse earlier bound e ≡ true
      → bound ≡ some from
      → (t : Time) × (stamp ≡ some t) × (earlier t from ≡ false)
  unfolding from_matches
  from_matches-time none e stamp from s h same = absurd (cc same)
  from_matches-time (some b) e none from s h same = absurd (cc (rw s at h))
  from_matches-time (some b) e (some t) from s h same =
      let bounds : b ≡ from = cc same in
      (t, refl, subst (λ c. earlier t c ≡ false) bounds (ground (arith, rw s at h)))

  to_matches-time :
      (bound : Option Time) (e : Entry parse) (stamp : Option Time) (to : Time)
      → e.timestamp ≡ stamp
      → to_matches parse earlier bound e ≡ true
      → bound ≡ some to
      → (t : Time) × (stamp ≡ some t) × (earlier t to ≡ true)
  unfolding to_matches
  to_matches-time none e stamp to s h same = absurd (cc same)
  to_matches-time (some b) e none to s h same = absurd (cc (rw s at h))
  to_matches-time (some b) e (some t) to s h same =
      let bounds : b ≡ to = cc same in (t, refl, subst (λ c. earlier t c ≡ true) bounds (rw s at h))

  pub matches-Found :
      (filter : Filter Time) (x : Index parse) (e : Entry parse)
      → Among parse earlier e x.entries
      → unknown_target parse earlier filter.target (target_key parse earlier filter.target x)
        ≡ false
      → matches parse earlier (target_key parse earlier filter.target x) filter e ≡ true
      → Found filter x e
  unfolding matches
  matches-Found filter x e a u h = record {
    among = a;
    level_asked = level_matches-AnyOf filter.levels e (ground arith);
    target_asked = λ name. target_matches-named filter.target x e name u (ground arith);
    not_before = λ from. from_matches-time filter.from_ms e e.timestamp from refl (ground arith);
    before_end = λ to. to_matches-time filter.to_ms e e.timestamp to refl (ground arith);
  }
