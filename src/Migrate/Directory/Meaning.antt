-- ===== src/Migrate/Directory/Meaning.antt =====
-- server/src/migrate/store.rs: reading a log is carrying out its operations, in their order.
use rs_matter_server.Prelude.{
  ℕ, suc, ◌≡◌, refl, sym, ◌∙◌, ap, Bool, none, List, [], ◌∷◌, ◌++◌, ◌==◌, nat_ord, text_ord, length,
  if◌then◌else◌, Bool-cases, inl, inr, Result, ok, err,
}
use rs_matter_server.Prelude.Text.{Text, trim}
use rs_matter_server.Prelude.Map.{get}
use rs_matter_server.Protocol.Json.{Numbers}
use rs_matter_server.Migrate.Value.{Formats}
use rs_matter_server.Migrate.Store.{Contexts}
use rs_matter_server.Migrate.Store.View.{Op, view, acts, acts-append, line_ops, apply_commit-view}
use rs_matter_server.Migrate.Directory.{
  WalEntry, Segments, wal_segments, replay_line, replay_lines, replay, read_wal,
}

module _ {N F : Type 0} ⦃num : Numbers N⦄ (fmt : Formats N F) where
  abbrev pub is_blank : Text → Bool
  is_blank line = length (trim line) == 0

  unfoldable pub lines_ops : List Text → List (Op N)
  lines_ops [] = []
  lines_ops (line ∷ lines) = (if is_blank line then [] else line_ops fmt line) ++ lines_ops lines

  unfoldable pub log_ops : Segments → List (Op N)
  log_ops [] = []
  log_ops ((segment, err e) ∷ segments) = log_ops segments
  log_ops ((segment, ok lines) ∷ segments) = lines_ops lines ++ log_ops segments

  line-view :
      (segment offset : ℕ) (line : Text) (contexts : Contexts F)
      → view (replay_line fmt none segment offset line contexts)
        ≡ acts fmt (if is_blank line then [] else line_ops fmt line) (view contexts)
  unfolding replay_line acts
  line-view segment offset line contexts = elim (Bool-cases (is_blank line)) [
    | inl e ↦ rw e refl
    | inr e ↦ rw e (apply_commit-view fmt line contexts)
  ]

  lines-view :
      (segment offset : ℕ) (lines : List Text) (contexts : Contexts F)
      → view (replay_lines fmt none segment offset lines contexts)
        ≡ acts fmt (lines_ops lines) (view contexts)
  unfolding replay_lines lines_ops acts
  lines-view segment offset [] contexts = refl
  lines-view segment offset (line ∷ lines) contexts =
      lines-view segment (suc offset) lines (replay_line fmt none segment offset line contexts)
      ∙ ap (acts fmt (lines_ops lines)) (line-view segment offset line contexts)
      ∙ sym (
          acts-append fmt (if is_blank line then [] else line_ops fmt line) (lines_ops lines)
            (view contexts))

  same_contexts : (a b : Contexts F) → ◌≡◌ {A = Result Text (Contexts F)} (ok a) (ok b) → a ≡ b
  same_contexts a b h = cc

  replay-view :
      (segments : Segments) (contexts found : Contexts F)
      → replay fmt none segments contexts ≡ ok found
      → view found ≡ acts fmt (log_ops segments) (view contexts)
  unfolding replay log_ops acts
  replay-view [] contexts found h = ap view (sym (same_contexts contexts found h))
  replay-view ((segment, err e) ∷ segments) contexts found h = cc
  replay-view ((segment, ok lines) ∷ segments) contexts found h =
      replay-view segments (replay_lines fmt none segment 0 lines contexts) found h
      ∙ ap (acts fmt (log_ops segments)) (lines-view segment 0 lines contexts)
      ∙ sym (acts-append fmt (lines_ops lines) (log_ops segments) (view contexts))

  -- A log that is read gives every key of every context the value that carrying out the log's
  -- operations one after the other, segment by segment, leaves it with: the last value set and not
  -- unset or dropped since, by itself, with its context or with one above it.
  pub read_wal-view :
      (entries : List WalEntry) (segments : Segments) (found : Contexts F)
      → wal_segments entries ≡ ok segments
      → read_wal fmt none entries ≡ ok found
      → view found ≡ acts fmt (log_ops segments) (λ path key. none)
  unfolding read_wal get
  read_wal-view entries segments found e h = replay-view segments [] found (rw e at h)
