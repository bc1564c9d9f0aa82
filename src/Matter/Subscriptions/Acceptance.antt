-- ===== src/Matter/Subscriptions/Acceptance.antt =====
-- server/src/matter/subscriptions.rs and reports.rs: a report is applied only for the subscription
-- that this server last established with the node and has not forgotten.
use rs_matter_server.Prelude.{
  ℕ, ◌≡◌, refl, Bool, true, false, Option, none, some, List, [], ◌∷◌, ◌==◌, ==_iff, nat_ord, any,
  arith, if◌then◌else◌, Option-cases, inl, inr,
}
use rs_matter_server.Prelude.Map.{get, get-insert, get-remove}
use rs_matter_server.Matter.Subscriptions.{
  Registry, empty, established, accepts, note_report, forget, forget_silent, accept, verdict,
}

-- The operations of the actor, the report handler and the monitor, in the order of the lock.
pub data Op : Type 0 where
  establish : ℕ → ℕ → ℕ → ℕ → Op
  report : ℕ → ℕ → Op
  drop_node : ℕ → Op
  sweep : ℕ → Op

unfoldable pub step : Registry → Op → Registry
step r (establish n id interval now) = established r n id interval now
step r (report n now) = note_report r n now
step r (drop_node n) = forget r n
step r (sweep now) = (forget_silent r now).1

unfoldable pub run : Registry → List Op → Registry
unfolding step
run r [] = r
run r (op ∷ ops) = run (step r op) ops

-- The id that the history leaves established with node `n`, if there was `before` at its start.
-- A sweep is taken to leave it, though it may drop it.
abbrev pub after : ℕ → Op → Option ℕ → Option ℕ
after n (establish m id interval now) before = if m == n then some id else before
after n (report m now) before = before
after n (drop_node m) before = if m == n then none else before
after n (sweep now) before = before

abbrev pub held : ℕ → Option ℕ → List Op → Option ℕ
held n before [] = before
held n before (op ∷ ops) = held n (after n op before) ops

module _ (r : Registry) (n id : ℕ) where
  accepts-established :
      (m j interval now : ℕ)
      → accepts (established r m j interval now) n id ≡ (if m == n then j == id else accepts r n id)
  unfolding accepts established
  accepts-established m j interval now = rw get-insert (ground arith)

  accepts-note_report : (m now : ℕ) → accepts (note_report r m now) n id ≡ accepts r n id
  unfolding accepts note_report
  accepts-note_report m now = elim (Option-cases (get m r)) [
    | inl missing ↦ rw missing refl
    | inr (e, found) ↦ rw (found) (rw get-insert (ground (arith, ==_iff m n)))
  ]

  accepts-forget : (m : ℕ) → accepts (forget r m) n id ≡ (if m == n then false else accepts r n id)
  unfolding accepts forget
  accepts-forget m = rw get-remove (ground arith)

abbrev AcceptsOnly : Registry → ℕ → Option ℕ → Type 0
AcceptsOnly r n o = (id : ℕ) → accepts r n id ≡ true → o ≡ some id

abbrev pub is_sweep : Op → Bool
is_sweep (sweep now) = true
is_sweep _ = false

step-accepts :
    (r : Registry) (n id : ℕ) (o : Option ℕ) (op : Op)
    → is_sweep op ≡ false
    → (o ≡ some id → accepts r n id ≡ true)
    → after n op o ≡ some id
    → accepts (step r op) n id ≡ true
unfolding step
step-accepts r n id o (establish m j interval now) s h e =
    ground (arith, accepts-established r n id m j interval now)
step-accepts r n id o (report m now) s h e = rw accepts-note_report (h e)
step-accepts r n id o (drop_node m) s h e = ground (arith, accepts-forget r n id m)
step-accepts r n id o (sweep now) s h e = cc

run-accepts :
    (r : Registry) (n id : ℕ) (o : Option ℕ) (ops : List Op)
    → any is_sweep ops ≡ false
    → (o ≡ some id → accepts r n id ≡ true)
    → held n o ops ≡ some id
    → accepts (run r ops) n id ≡ true
unfolding run
run-accepts r n id o [] s h e = h e
run-accepts r n id o (op ∷ ops) s h e =
    run-accepts (step r op) n id (after n op o) ops (ground arith)
      (step-accepts r n id o op (ground arith) h) e

-- While nothing is swept, a report on the id that stands is accepted.
pub held_is_accepted :
    (ops : List Op) (n id : ℕ)
    → any is_sweep ops ≡ false
    → held n none ops ≡ some id
    → verdict (run empty ops) n (some id) ≡ accept
unfolding verdict
held_is_accepted ops n id s e = rw (run-accepts empty n id none ops s (λ p. cc) e)
