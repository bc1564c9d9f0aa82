-- ===== src/Migrate/Directory/Replay.antt =====
-- server/src/migrate/store.rs: a snapshot and what the log has after it are as good as the whole log.
use rs_matter_server.Prelude.{
  ℕ, suc, ◌≡◌, none, some, List, [], ◌∷◌, nat_ord, text_ord, ltb, leb, if◌then◌else◌, keep, Result,
  ok, ◌>>=◌,
}
use rs_matter_server.Prelude.Text.{Text}
use rs_matter_server.Protocol.Json.{Numbers}
use rs_matter_server.Migrate.Value.{Formats}
use rs_matter_server.Migrate.Store.{Contexts, CommitId}
use rs_matter_server.Migrate.Directory.{Segments, covered, replay_line, replay}

module _ {N F : Type 0} ⦃num : Numbers N⦄ (fmt : Formats N F) where
  -- What a snapshot holds that was taken at a commit: the lines at that position and before it.
  abbrev pub early_line : CommitId → ℕ → ℕ → Text → Contexts F → Contexts F
  early_line id segment offset line contexts =
      if covered (some id) segment offset
      then replay_line fmt none segment offset line contexts
      else contexts

  unfoldable pub early_lines : CommitId → ℕ → ℕ → List Text → Contexts F → Contexts F
  early_lines id segment offset [] contexts = contexts
  early_lines id segment offset (line ∷ lines) contexts =
      early_lines id segment (suc offset) lines (early_line id segment offset line contexts)

  unfoldable pub early : CommitId → Segments → Contexts F → Result Text (Contexts F)
  early id [] contexts = ok contexts
  early id ((segment, file) ∷ segments) contexts =
      let rest = file >>= λ lines. early id segments (early_lines id segment 0 lines contexts) in
      if ltb id.0 segment then ok contexts else rest

  -- What the theorem says of one list of segments.
  abbrev Resumes : CommitId → Segments → Type 0
  Resumes id segments =
      (contexts taken : Contexts F)
      → early id segments contexts ≡ ok taken
      → replay fmt (some id) (keep (λ e. leb id.0 e.0) segments) taken
        ≡ replay fmt none segments contexts
