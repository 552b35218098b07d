-- ===== src/Instance/Logs.antt =====
-- The log frames of an instance: `parse`, `publish_log_frame`, `flush_log_record` and `diagnostics` of
-- crates/nyanpasu-core-manager/src/instance.rs. The parser of log.rs is an interface here, and the
-- subscribers get what is added to the tail.
pub mod Tail
use clash_nyanpasu_service.Shared.{
  ℕ, ◌==◌, Bytes, Option, none, some, List, [], ◌∷◌, ◌++◌, length, if◌then◌else◌,
}

pub data LogStream : Type 0 where
  stdout stderr : LogStream

pub record LogParser : Type 1 where
  pub Parser : Type 0
  pub Frame : Type 0
  pub push : LogStream → Bytes → Parser → Parser × List Frame
  pub finish : Parser → Parser × List Frame
  pub format_tail : List Frame → Bytes
  pub error_summary : List Frame → Option Bytes

abbrev pub log_tail_frames : ℕ
log_tail_frames = 32

pop_front {ℓ} : {A : Type ℓ} → List A → List A
pop_front [] = []
pop_front (x ∷ xs) = xs

-- The tail after one more frame.
pub push_frame {ℓ} : {A : Type ℓ} → A → List A → List A
unfolding pop_front
push_frame frame tail =
    (if length tail == log_tail_frames then pop_front tail else tail) ++ frame ∷ []

-- The tail after the frames of one call of the parser.
pub push_frames {ℓ} : {A : Type ℓ} → List A → List A → List A
unfolding push_frame
push_frames [] tail = tail
push_frames (frame ∷ frames) tail = push_frames frames (push_frame frame tail)

module _ (l : LogParser) where
  open l use {Parser, Frame, push, finish, format_tail, error_summary}

  pub record Logs : Type 0 where
    pub parser : Parser
    pub log_tail : List Frame

  publish_frames : List Frame → Logs → Logs
  unfolding push_frames
  publish_frames frames logs = record logs { log_tail = push_frames frames logs.log_tail }

  parsed : Logs → Parser × List Frame → Logs
  unfolding publish_frames
  parsed logs (parser, frames) = publish_frames frames (record logs { parser = parser })

  -- The handler of a line of the process.
  pub print : LogStream → Bytes → Logs → Logs
  unfolding parsed
  print stream line logs = parsed logs (push stream line logs.parser)

  -- `flush_log_record`.
  unfoldable pub flush_log_record : Logs → Logs
  unfolding parsed
  flush_log_record logs = parsed logs (finish logs.parser)

  -- `diagnostics`, with the logs that its flush leaves.
  unfoldable pub diagnostics : Logs → Logs × Bytes
  unfolding flush_log_record
  diagnostics logs = let flushed = flush_log_record logs in (flushed, format_tail flushed.log_tail)

  summary_or : Bytes → Option Bytes → Bytes
  summary_or lifecycle none = lifecycle
  summary_or lifecycle (some summary) = summary

  -- `failure_summary`.
  pub failure_summary : Bytes → Logs → Logs × Bytes
  unfolding summary_or flush_log_record
  failure_summary lifecycle logs =
      let flushed = flush_log_record logs in
      (flushed, summary_or lifecycle (error_summary flushed.log_tail))
