-- ===== src/Matter/Subscriptions.antt =====
-- server/src/matter/subscriptions.rs, and the verdict of server/src/matter/reports.rs. An instant is
-- a number of milliseconds; the current one is an argument of each operation that reads the clock.
pub mod Acceptance
pub mod Liveness
mod Tests
use rs_matter_server.Prelude.{
  ℕ, ◌-◌, ◌*◌, Bool, true, false, Option, none, some, List, [], ◌∷◌, ◌==◌, nat_ord, leb, ltb, keep,
  length, if◌then◌else◌,
}
use rs_matter_server.Prelude.Map.{Map, get, insert, remove, remove_all, keys}

pub record Entry : Type 0 where
  pub subscription_id : ℕ
  pub max_interval : ℕ
  pub last_report : ℕ

-- The map behind the mutex, keyed by node.
abbrev pub Registry : Type 0
Registry = Map ℕ Entry

abbrev pub empty : Registry
empty = []

unfoldable pub established : Registry → ℕ → ℕ → ℕ → ℕ → Registry
established r node_id subscription_id max_interval now =
    insert node_id
      (record { subscription_id = subscription_id; max_interval = max_interval; last_report = now })
      r

has_id : Option Entry → ℕ → Bool
has_id none subscription_id = false
has_id (some entry) subscription_id = entry.subscription_id == subscription_id

unfoldable pub accepts : Registry → ℕ → ℕ → Bool
unfolding has_id
accepts r node_id subscription_id = has_id (get node_id r) subscription_id

-- `get_mut` and an assignment: an absent node is left absent.
unfoldable pub touch : ℕ → ℕ → Registry → Option Entry → Registry
touch node_id now r none = r
touch node_id now r (some entry) = insert node_id (record entry { last_report = now }) r

unfoldable pub note_report : Registry → ℕ → ℕ → Registry
unfolding touch
note_report r node_id now = touch node_id now r (get node_id r)

unfoldable pub forget : Registry → ℕ → Registry
forget r node_id = remove node_id r

-- `last_report.elapsed()`, which stops at zero, against twice the interval.
unfoldable pub is_silent : ℕ → Entry → Bool
is_silent now entry = leb (entry.max_interval * 2) (now - entry.last_report)

entry_live : ℕ → Option Entry → Bool
entry_live now none = false
entry_live now (some entry) = ltb (now - entry.last_report) (entry.max_interval * 2)

unfoldable pub is_live : Registry → ℕ → ℕ → Bool
unfolding entry_live
is_live r node_id now = entry_live now (get node_id r)

unfoldable pub silent : ℕ → Registry → List ℕ
silent now r = keys (keep (λ e. is_silent now e.1) r)

-- The nodes that are dropped, and the registry without them.
unfoldable pub forget_silent : Registry → ℕ → List ℕ × Registry
forget_silent r now = (silent now r, remove_all (silent now r) r)

unfoldable pub len : Registry → ℕ
len r = length r

pub data Verdict : Type 0 where
  accept disown : Verdict

-- A report with no subscription id is disowned.
unfoldable pub verdict : Registry → ℕ → Option ℕ → Verdict
verdict r node_id none = disown
verdict r node_id (some subscription_id) =
    if accepts r node_id subscription_id then accept else disown
