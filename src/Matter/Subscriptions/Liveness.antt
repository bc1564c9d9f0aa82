-- ===== src/Matter/Subscriptions/Liveness.antt =====
-- server/src/matter/subscriptions.rs: which subscriptions are silent, and that those are dropped.
use rs_matter_server.Prelude.{
  ℕ, ◌*◌, ◌-◌, ◌≡◌, refl, false, not, ◌&&◌, Option, none, some, ◌==◌, nat_ord, ltb, any, arith,
  is_some, if◌then◌else◌, Option-cases, inl, inr,
}
use rs_matter_server.Prelude.Map.{
  get, IsSorted, any-keys-keep, get-remove_all, remove_all-IsSorted, insert-IsSorted,
  remove-IsSorted, get-insert,
}
use rs_matter_server.Matter.Subscriptions.{
  Entry, Registry, established, note_report, forget, is_silent, is_live, entry_live, silent,
  forget_silent,
}

-- A node is named as silent exactly when it is subscribed and not live.
pub silent_exact :
    (r : Registry) (now n : ℕ)
    → IsSorted r
    → any (λ k. k == n) (forget_silent r now).0 ≡ (is_some (get n r) && not (is_live r n now))
unfolding forget_silent silent is_live
silent_exact r now n h = rw (any-keys-keep (is_silent now) n r h) (of (get n r))
  where
    of :
        (o : Option Entry)
        → (elim o [ none ↦ false | some v ↦ is_silent now v ])
          ≡ (is_some o && not (entry_live now o))
    of none = refl
    of (some v) = unfold is_silent in ground arith

-- After the sweep a node has the entry it had if it is live, and none otherwise: every subscription
-- that is left is live.
pub forget_silent-get :
    (r : Registry) (now n : ℕ)
    → IsSorted r
    → get n (forget_silent r now).1 ≡ (if is_live r n now then get n r else none)
unfolding forget_silent
forget_silent-get r now n h =
    rw (get-remove_all (silent now r) n r) (ground (arith, silent_lem, absent_is_not_live))
  where
    silent_lem : any (λ k. k == n) (silent now r) ≡ (is_some (get n r) && not (is_live r n now))
    silent_lem = silent_exact r now n h

    absent_is_not_live : get n r ≡ none → is_live r n now ≡ false
    absent_is_not_live e = unfold is_live in rw e

-- A report renews the subscription of its node for twice the interval, and of no other.
pub note_report_renews :
    (r : Registry) (n m t now : ℕ) (e : Entry)
    → get n r ≡ some e
    → is_live (note_report r n t) m now
      ≡ (if n == m then ltb (now - t) (e.max_interval * 2) else is_live r m now)
unfolding note_report is_live
note_report_renews r n m t now e h = rw h (rw get-insert (ground arith))

-- Every operation keeps the registry a map: sorted, so with one entry for a node.
pub note_report-IsSorted : (r : Registry) (n t : ℕ) → IsSorted r → IsSorted (note_report r n t)
unfolding note_report
note_report-IsSorted r n t h = elim (Option-cases (get n r)) [
  | inl missing ↦ rw (missing) h
  | inr (e, found) ↦ rw (found) (insert-IsSorted n _ r h)
]

pub established-IsSorted :
    (r : Registry) (n id interval t : ℕ) → IsSorted r → IsSorted (established r n id interval t)
unfolding established
established-IsSorted r n id interval t h = insert-IsSorted n _ r h

pub forget-IsSorted : (r : Registry) (n : ℕ) → IsSorted r → IsSorted (forget r n)
unfolding forget
forget-IsSorted r n h = remove-IsSorted n r h

pub forget_silent-IsSorted :
    (r : Registry) (now : ℕ) → IsSorted r → IsSorted (forget_silent r now).1
unfolding forget_silent
forget_silent-IsSorted r now h = remove_all-IsSorted (silent now r) r h
