-- ===== src/Api/Shared.antt =====
-- server/src/api/mod.rs: state that every connection shares: the event fan-out, who owns the fabric
-- label, and the history of node events.
mod Tests
use Prim.Native.Nat.{min}
use rs_matter_server.Prelude.{
  ℕ, zero, suc, ◌+◌, ◌-◌, ◌≤◌, ◌<◌, ◌≡◌, ◌≢◌, ◌↔◌, ◌∙◌, ap, sym, refl, Bool, true, false, not, ◌&&◌,
  ◌||◌, Option, none, some, List, [], ◌∷◌, ◌++◌, ◌==◌, ==_iff, nat_ord, ltb, leb, leb→le, le→leb,
  arith, length, length-append, drop, length-drop, drop-drop, drop-append, if_false, if◌then◌else◌,
  if_either, Bool-cases, All, map,
}
use mathlib.Core.List.{append-nil, append_assoc}

-- The owner of the label, zero for nobody: `compare_exchange(0, id)`, or already this connection.
unfoldable pub claim_fabric_label : ℕ → ℕ → Bool × ℕ
claim_fabric_label connection_id owner =
    if owner == 0 then (true, connection_id) else (owner == connection_id, owner)

unfoldable pub release_fabric_label : ℕ → ℕ → ℕ
release_fabric_label connection_id owner = if owner == connection_id then 0 else owner

pub data Request : Type 0 where
  claims releases : ℕ → Request

unfoldable pub run : ℕ → List Request → ℕ
run owner [] = owner
run owner (claims id ∷ requests) = run (claim_fabric_label id owner).1 requests
run owner (releases id ∷ requests) = run (release_fabric_label id owner) requests

-- The owner's own release does not occur.
abbrev pub IsKept : ℕ → List Request → Type 0
IsKept owner [] = Unit
IsKept owner (claims id ∷ requests) = IsKept owner requests
IsKept owner (releases id ∷ requests) = (id ≢ owner) × IsKept owner requests

kept_owner : (id : ℕ) (requests : List Request) → 1 ≤ id → IsKept id requests → run id requests ≡ id
unfolding run claim_fabric_label release_fabric_label
kept_owner id [] l k = refl
kept_owner id (claims other ∷ requests) l k =
    rw (kept_claim id other l) (kept_owner id requests l k)
  where
    kept_claim : (id other : ℕ) → 1 ≤ id → (claim_fabric_label other id).1 ≡ id
    kept_claim id other l = ground arith
kept_owner id (releases other ∷ requests) l (n, k) =
    rw (kept_release id other n) (kept_owner id requests l k)
  where
    kept_release : (id other : ℕ) → other ≢ id → release_fabric_label other id ≡ id
    kept_release id other n = ground arith

-- The connection that set the label first keeps it: until it releases it, whatever the others claim
-- and release, its claims succeed and those of every other connection fail.
pub label_is_owned :
    (id other : ℕ) (requests : List Request)
    → 1 ≤ id
    → IsKept id requests
    → ((claim_fabric_label other (run (claim_fabric_label id 0).1 requests)).0 ≡ true)
      ↔ (other ≡ id)
unfolding claim_fabric_label
label_is_owned id other requests l k = rw (kept_owner id requests l k) ground arith

abbrev pub event_history_size : ℕ
event_history_size = 25

-- `while history.len() > SIZE { pop_front }`: the oldest go.
unfoldable pub record_event : {E : Type 0} → E → List E → List E
record_event event history =
    let pushed = history ++ (event ∷ []) in drop (length pushed - event_history_size) pushed

unfoldable pub record_events : {E : Type 0} → List E → List E → List E
record_events [] history = history
record_events (e ∷ es) history = record_events es (record_event e history)

-- A subscriber's channel: its queue, and whether the receiver is gone.
pub record Sender (E : Type 0) : Type 0 where
  pub queue : List E
  pub closed : Bool

abbrev pub channel_bound : ℕ
channel_bound = 256

try_send : {E : Type 0} → E → Sender E → Option (Sender E)
try_send event s =
    if s.closed
    then none
    else if leb channel_bound (length s.queue)
    then none
    else some (record s { queue = s.queue ++ (event ∷ []) })

kept : {E : Type 0} → Option (Sender E) → List (Sender E) → List (Sender E)
kept none rest = rest
kept (some s) rest = s ∷ rest

-- Who cannot take the event is dropped.
unfoldable pub publish : {E : Type 0} → E → List (Sender E) → List (Sender E)
unfolding try_send kept
publish event [] = []
publish event (s ∷ subscribers) =
    let rest = publish event subscribers in kept (try_send event s) rest

unfoldable pub subscribe : {E : Type 0} → List (Sender E) → List (Sender E)
subscribe subscribers = subscribers ++ (record { queue = []; closed = false } ∷ [])

-- The last 25.
abbrev latest : {E : Type 0} → List E → List E
latest xs = drop (length xs - event_history_size) xs

latest-latest :
    {E : Type 0} (xs : List E) (e : E) → record_event e (latest xs) ≡ latest (xs ++ (e ∷ []))
unfolding record_event
latest-latest xs e =
    let n : ℕ = length xs - event_history_size in
    let joined : latest xs ++ (e ∷ []) ≡ drop n (xs ++ (e ∷ [])) =
      sym (drop-append n xs (e ∷ []) (omega arith)) in
    let sizes : n + (length (drop n (xs ++ (e ∷ []))) - event_history_size)
        ≡ length (xs ++ (e ∷ [])) - event_history_size =
      omega (arith, length-drop n (xs ++ (e ∷ [])), length-append xs (e ∷ [])) in
    ap (λ ys. drop (length ys - event_history_size) ys) joined
    ∙ drop-drop n (length (drop n (xs ++ (e ∷ []))) - event_history_size) (xs ++ (e ∷ []))
    ∙ ap (λ k. drop k (xs ++ (e ∷ []))) sizes

record_events-latest :
    {E : Type 0} (es past : List E) → record_events es (latest past) ≡ latest (past ++ es)
unfolding record_events
record_events-latest [] past = ap latest (sym (append-nil past))
record_events-latest (e ∷ es) past =
    ap (record_events es) (latest-latest past e)
    ∙ record_events-latest es (past ++ (e ∷ []))
    ∙ ap latest (append_assoc past (e ∷ []) es)

-- However many events nodes reported, the history is the last 25 of them, in the order they came.
pub history_is_latest :
    {E : Type 0} (es : List E) → record_events es [] ≡ drop (length es - event_history_size) es
history_is_latest es = record_events-latest es []

push : {E : Type 0} → E → Sender E → Sender E
push e s = record s { queue = s.queue ++ (e ∷ []) }

taken :
    {E : Type 0} (e : E) (s : Sender E)
    → s.closed ≡ false
    → length s.queue < channel_bound
    → try_send e s ≡ some (push e s)
unfolding try_send push
taken e s open_ room =
    if_false (λ o. o ≡ some (push e s)) s.closed _ _ open_
      (if_false (λ o. o ≡ some (push e s)) (leb channel_bound (length s.queue)) _ _
        (below (length s.queue) room) refl)
  where
    below : (n : ℕ) → n < 256 → leb 256 n ≡ false
    below n h = ground arith

unfoldable pub publish_all : {E : Type 0} → List E → List (Sender E) → List (Sender E)
publish_all [] subscribers = subscribers
publish_all (e ∷ es) subscribers = publish_all es (publish e subscribers)
