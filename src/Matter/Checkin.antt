-- ===== src/Matter/Checkin.antt =====
-- server/src/matter/checkin.rs: who sent a check-in, by the key that reads it. The cipher is a
-- parameter: what a key makes of a payload, its counter where the payload is authentic.
use rs_matter_server.Prelude.{
  ℕ, ◌≤◌, ◌<◌, ◌≡◌, ◌⊎◌, inl, inr, refl, Bool, true, false, Option, none, some, List, [], ◌∷◌, ◌==◌,
  nat_ord, leb, ltb, arith, length, if◌then◌else◌, Has, is_some, update_first, find, Bool-cases,
  Option-cases,
}
use rs_matter_server.Prelude.Text.{Text}
use rs_matter_server.Storage.Config.{ConfigData, IcdEntry}
use rs_matter_server.Storage.Config.Registrations.{
  Base64, Registration, icd_registrations, decoded, note_icd_counter,
}
pub mod Replays
mod Tests

-- `CanonAeadKeyRef::try_new`, which wants 16 bytes, and `CheckIn::parse`.
pub record Cipher : Type 0 where
  pub parse : List ℕ → List ℕ → Option ℕ

is_replay : Option ℕ → ℕ → Bool
is_replay none counter = false
is_replay (some last) counter = leb counter last

absent : {P : Type 0} {x : ℕ × ℕ} → none ≡ some x → P
absent h = cc

same_pair : {n m c d : ℕ} → ◌≡◌ {A = Option (ℕ × ℕ)} (some (n, c)) (some (m, d)) → (n ≡ m) × (c ≡ d)
same_pair h = (cc, cc)

same_registration :
    (n m : ℕ) (key : List ℕ) (last : Option ℕ)
    → n ≡ m
    → ◌≡◌ {A = Registration} (n, key, last) (m, key, last)
same_registration n m key last h = cc

advances :
    (last : Option ℕ) (c : ℕ)
    → is_replay last c ≡ false
    → (last ≡ none) ⊎ ((l : ℕ) × (last ≡ some l) × (l < c))
unfolding is_replay
advances none c h = inl refl
advances (some l) c h = inr (l, refl, ground arith)

noted : ConfigData → Option (ℕ × ℕ) → Option (ℕ × ℕ) × ConfigData
noted config none = (none, config)
noted config (some (node_id, counter)) =
    (some (node_id, counter), note_icd_counter node_id counter config)

module _ ⦃cipher : Cipher⦄ where
  read : List ℕ → List ℕ → Option ℕ
  read key payload = if length key == 16 then cipher.parse key payload else none

  -- The first key that reads the payload names its sender; a counter that does not advance ends the
  -- search.
  unfoldable pub identify : List Registration → List ℕ → Option (ℕ × ℕ)
  unfolding read is_replay
  identify [] payload = none
  identify ((node_id, key, last) ∷ registrations) payload =
      let rest = identify registrations payload in
      elim (read key payload) [
        | none ↦ rest
        | some counter ↦ if is_replay last counter then none else some (node_id, counter)
      ]

  -- The handler: what is learnt, with the configuration after it.
  unfoldable pub check_in : ⦃base64 : Base64⦄ → List ℕ → ConfigData → Option (ℕ × ℕ) × ConfigData
  unfolding identify noted
  check_in payload config = noted config (identify (icd_registrations config) payload)

  -- Who is identified is registered, with a key of 16 bytes that reads the payload as carrying this
  -- counter, and the counter is above the last that was accepted from it.
  abbrev pub IsSender : List Registration → List ℕ → ℕ → ℕ → Type 0
  IsSender registrations payload node_id counter =
      (key : List ℕ) × (last : Option ℕ) × Has (node_id, key, last) registrations
      × (length key ≡ 16)
      × (cipher.parse key payload ≡ some counter)
      × ((last ≡ none) ⊎ ((l : ℕ) × (last ≡ some l) × (l < counter)))

  read_facts :
      (key payload : List ℕ) (c : ℕ)
      → read key payload ≡ some c
      → (length key ≡ 16) × (cipher.parse key payload ≡ some c)
  unfolding read
  read_facts key payload c h = ground arith

  -- Who is identified is registered, its key reads the payload, and the counter is above the last one
  -- that was accepted from it: a forgery and a replay identify nobody.
  pub identify-IsSender :
      (registrations : List Registration) (payload : List ℕ) (node_id counter : ℕ)
      → identify registrations payload ≡ some (node_id, counter)
      → IsSender registrations payload node_id counter
  unfolding identify read is_replay
  identify-IsSender [] payload node_id counter h = absent h
  identify-IsSender ((n, key, last) ∷ registrations) payload node_id counter h =
      elim (Option-cases (read key payload)) [
        | inl e ↦
            let (k, l, there, sixteen, parsed, above) =
              identify-IsSender registrations payload node_id counter (rw (identify, e) at h) in
            (k, l, inr there, sixteen, parsed, above)
        | inr (c, e) ↦ elim (Bool-cases (is_replay last c)) [
          | inl replayed ↦ absent (rw (identify, e, replayed) at h)
          | inr fresh ↦
              let (a, b) = same_pair (rw (identify, e, fresh) at h) in
              let (sixteen, parsed) = read_facts key payload c e in
              (
                key,
                last,
                inl (same_registration n node_id key last a),
                sixteen,
                rw (← b) parsed,
                rw (← b) (advances last c fresh),
              )
        ]
      ]
