-- ===== src/LogIndex.antt =====
-- The index of a log file: crates/nyanpasu-logging/src/index.rs up to its search. A line is parsed by the
-- JSON and time libraries, as a parameter. The pool of interned targets is the list of their texts in the
-- order in which they came, and a symbol is a place in it; the tables of postings are functions of their keys.
pub mod Append
pub mod Ordered
pub mod Names
pub mod Postings
pub mod Bounds
pub mod Scan
mod Tests
use clash_nyanpasu_service.Shared.{
  ℕ, zero, suc, is_some_and, ◌+◌, ◌-◌, Bytes, codes, bytes_eq, Bool, true, false, not, ◌&&◌, ◌||◌,
  ◌==◌, ltb, leb, Option, none, some, List, [], ◌∷◌, ◌++◌, length, map, if◌then◌else◌,
}

abbrev pub max_window : ℕ
max_window = 33554432

abbrev pub max_entries : ℕ
max_entries = 250000

abbrev pub max_line : ℕ
max_line = 262144

abbrev pub max_batch : ℕ
max_batch = 1048576

abbrev pub max_target_bytes : ℕ
max_target_bytes = 8388608

pub data Level : Type 0 where
  trace debug info warn error fatal unknown : Level

-- `level as usize`.
pub level_number : Level → ℕ
level_number trace = 0
level_number debug = 1
level_number info = 2
level_number warn = 3
level_number error = 4
level_number fatal = 5
level_number unknown = 6

to_ascii_lowercase : Bytes → Bytes
to_ascii_lowercase = map λ b. if leb b'A' b && leb b b'Z' then b + 32 else b

level_of : Bytes → Level
level_of value =
    if bytes_eq value (codes "trace")
    then trace
    else if bytes_eq value (codes "debug")
    then debug
    else if bytes_eq value (codes "info")
    then info
    else if bytes_eq value (codes "warn") || bytes_eq value (codes "warning")
    then warn
    else if bytes_eq value (codes "error")
    then error
    else if bytes_eq value (codes "fatal")
    then fatal
    else unknown

-- `Level::parse`.
pub parse_level : Bytes → Level
unfolding to_ascii_lowercase level_of
parse_level value = level_of (to_ascii_lowercase value)

level_or_default : Option Bytes → Level
unfolding parse_level
level_or_default none = unknown
level_or_default (some value) = parse_level value

text_or_empty : Option Bytes → Bytes
text_or_empty none = []
text_or_empty (some value) = value

-- The pool of targets and the postings.
pub record Tables : Type 0 where
  pub targets : List Bytes
  pub target_bytes : ℕ
  pub postings : ℕ → List ℕ
  pub levels : ℕ → List ℕ

pub no_tables : Tables
no_tables = record { targets = []; target_bytes = 0; postings = λ key. []; levels = λ level. [] }

next_place : Option ℕ → Option ℕ
next_place none = none
next_place (some key) = some (suc key)

-- `Rodeo::get`: the symbol of a text that is in the pool.
pub get : Bytes → List Bytes → Option ℕ
unfolding next_place
get name [] = none
get name (t ∷ ts) = let rest = get name ts in if bytes_eq name t then some 0 else next_place rest

-- `Rodeo::resolve`, which panics on a symbol that is not of the pool, where this gives the empty text.
pub resolve : ℕ → List Bytes → Bytes
resolve key [] = []
resolve zero (t ∷ ts) = t
resolve (suc key) (t ∷ ts) = resolve key ts

pub interned : Bytes → List Bytes → Bool
unfolding get
interned name ts = is_some_and (get name ts) (λ key. true)

key_or : Bytes → Option ℕ → Tables → ℕ × Tables
key_or name (some key) t = (key, t)
key_or name none t = (
  length t.targets,
  record t { targets = t.targets ++ name ∷ []; target_bytes = t.target_bytes + length name },
)

-- The symbol of a text, which is interned and counted where it is new.
key_for : Bytes → Tables → ℕ × Tables
unfolding key_or get
key_for name t = key_or name (get name t.targets) t

push_posting : ℕ → ℕ → (ℕ → List ℕ) → ℕ → List ℕ
push_posting place start table key = if key == place then table key ++ start ∷ [] else table key

-- A line as the libraries read it: whether it is an object, and its three fields.
pub record Parsed (Time : Type 0) : Type 0 where
  pub object : Bool
  pub timestamp : Option Time
  pub level : Option Bytes
  pub target : Option Bytes

module _ {Time : Type 0} (parse : Bytes → Parsed Time) where
  pub record Entry : Type 0 where
    pub start : ℕ
    pub end_ : ℕ
    pub timestamp : Option Time
    pub level : Level
    pub target : ℕ
    pub unparsed : Bool
    pub truncated : Bool

  pub record Index : Type 0 where
    pub entries : List Entry
    pub tables : Tables
    pub pending : Bytes
    pub line_start : ℕ
    pub next_read : ℕ
    pub committed : ℕ
    pub skipping : Bool
    pub malformed : ℕ
    pub truncated : ℕ
    pub partial : Bool

  -- `Index::new`.
  pub new_index : ℕ → Index
  unfolding no_tables
  new_index start = record {
    entries = [];
    tables = no_tables;
    pending = [];
    line_start = start;
    next_read = start;
    committed = start;
    skipping = not (start == 0);
    malformed = 0;
    truncated = 0;
    partial = not (start == 0);
  }

  post : Entry → Tables → Tables
  unfolding push_posting level_number
  post e t = record t {
    postings = push_posting e.target e.start t.postings;
    levels = push_posting (level_number e.level) e.start t.levels;
  }

  -- The loop of `evict` over the entries that stay: the target of each is resolved in the old pool and
  -- interned in the new one, and the entry gets its new symbol.
  rebuild : List Bytes → List Entry → Tables → List Entry × Tables
  unfolding post key_for resolve
  rebuild old [] t = ([], t)
  rebuild old (e ∷ es) t =
      let keyed = key_for (resolve e.target old) t in
      let moved : Entry = record e { target = keyed.0 } in
      let rest = rebuild old es (post moved keyed.1) in (moved ∷ rest.0, rest.1)

  -- Whether the front is over the count or behind the window.
  must_go : ℕ → Entry → List Entry → Bool
  must_go floor e es = ltb max_entries (length (e ∷ es)) || ltb e.start floor

  -- The loop of `evict`.
  evicted : ℕ → List Entry → List Entry
  unfolding must_go
  evicted floor [] = []
  evicted floor (e ∷ es) =
      let rest = evicted floor es in if must_go floor e es then rest else e ∷ es

  removed : ℕ → List Entry → Bool
  unfolding must_go
  removed floor [] = false
  removed floor (e ∷ es) = must_go floor e es

  evict_to : ℕ → Index → Index
  unfolding evicted removed rebuild no_tables
  evict_to floor x =
      let rebuilt = rebuild x.tables.targets (evicted floor x.entries) no_tables in
      if removed floor x.entries
      then record x { entries = rebuilt.0; tables = rebuilt.1; partial = true }
      else x

  -- `evict`; the subtraction saturates in the source too.
  pub evict : Index → Index
  unfolding evict_to
  evict x = evict_to (x.next_read - max_window) x

  fits : Bytes → Index → Bool
  fits target x = leb (x.tables.target_bytes + length target) max_target_bytes

  -- The second test, after an eviction that made room or not.
  choose_again : Bytes → Bool → Index → Index × Bytes × Bool
  unfolding fits
  choose_again target truncated x = if fits target x then (x, target, truncated) else (x, [], true)

  -- The target that is kept, within the bytes of the pool.
  choose : Bytes → Bool → Index → Index × Bytes × Bool
  unfolding choose_again fits interned evict
  choose target truncated x =
      if interned target x.tables.targets || fits target x
      then (x, target, truncated)
      else choose_again target truncated (evict x)

  counted : Bool → ℕ → ℕ
  counted true n = n + 1
  counted false n = n

  insert_keyed : Parsed Time → Bool → Index → ℕ × Tables → Index
  unfolding post counted level_or_default
  insert_keyed p truncated x (key, tables) =
      let entry : Entry = record {
        start = x.line_start;
        end_ = x.next_read;
        timestamp = p.timestamp;
        level = level_or_default p.level;
        target = key;
        unparsed = not p.object;
        truncated = truncated;
      } in
      record x {
        entries = x.entries ++ entry ∷ [];
        tables = post entry tables;
        malformed = counted (not p.object) x.malformed;
        truncated = counted truncated x.truncated;
      }

  insert_as : Parsed Time → Index × Bytes × Bool → Index
  unfolding insert_keyed key_for
  insert_as p (x, target, truncated) = insert_keyed p truncated x (key_for target x.tables)

  choose_parsed : Parsed Time → Index → Index × Bytes × Bool
  unfolding choose text_or_empty
  choose_parsed p x =
      let long = ltb 4096 (length (text_or_empty p.target)) in
      choose (if long then [] else text_or_empty p.target) long x

  insert_parsed : Parsed Time → Index → Index
  unfolding insert_as choose_parsed
  insert_parsed p x = insert_as p (choose_parsed p x)

  -- `insert`.
  pub insert : Bytes → Index → Index
  unfolding insert_parsed
  insert line x = insert_parsed (parse line) x
