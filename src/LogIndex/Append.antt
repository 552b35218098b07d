-- ===== src/LogIndex/Append.antt =====
-- The reading of appended bytes: `append` of crates/nyanpasu-logging/src/index.rs, with its loop over the
-- bytes.
use clash_nyanpasu_service.Shared.{
  ℕ, ◌+◌, Bytes, Bool, true, false, not, ◌||◌, ◌==◌, ltb, Option, none, some, [], ◌∷◌, ◌++◌, length,
  if◌then◌else◌,
}
use clash_nyanpasu_service.LogIndex.{max_line, max_batch, Parsed, Index, insert, evict}

module _ {Time : Type 0} (parse : Bytes → Parsed Time) where
  unfoldable pub end_line : Bool → Index parse → Index parse
  unfolding insert
  end_line true x = x
  end_line false x = insert parse x.pending x

  unfoldable pub newline : Index parse → Index parse
  unfolding end_line
  newline x =
      let y = end_line x.skipping x in
      record y { pending = []; skipping = false; committed = y.next_read; line_start = y.next_read }

  unfoldable pub collect : ℕ → Bool → Index parse → Index parse
  collect byte true x = x
  collect byte false x =
      if length x.pending == max_line
      then record x { pending = []; skipping = true; truncated = x.truncated + 1; partial = true }
      else record x { pending = x.pending ++ byte ∷ [] }

  unfoldable pub feed_read : Bool → ℕ → Index parse → Index parse
  unfolding newline collect
  feed_read true byte x = newline x
  feed_read false byte x = collect byte x.skipping x

  -- The body of the loop of `append`.
  unfoldable pub feed : ℕ → Index parse → Index parse
  unfolding feed_read
  feed byte x = feed_read (byte == b'\n') byte (record x { next_read = x.next_read + 1 })

  unfoldable pub feed_all : Bytes → Index parse → Index parse
  unfolding feed
  feed_all [] x = x
  feed_all (byte ∷ bytes) x = feed_all bytes (feed byte x)

  unfoldable pub append_batch : (refused : Bool) → Bytes → Index parse → Option (Index parse)
  unfolding feed_all evict
  append_batch true bytes x = none
  append_batch false bytes x = some (evict parse (feed_all bytes x))

  -- `append`; `none` for its error, which leaves the index as it is.
  unfoldable pub append : (offset : ℕ) → Bytes → Index parse → Option (Index parse)
  unfolding append_batch
  append offset bytes x =
      append_batch (not (offset == x.next_read) || ltb max_batch (length bytes)) bytes x
