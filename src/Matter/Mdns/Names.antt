-- ===== src/Matter/Mdns/Names.antt =====
-- server/src/matter/mdns_browser.rs: a compressed name is read in bounded time, inside the message.
use rs_matter_server.Prelude.{
  ℕ, zero, suc, ◌+◌, ◌≤◌, ◌<◌, ◌≡◌, refl, Bool, true, false, Option, none, some, List, [], ◌∷◌,
  ◌++◌, ◌==◌, nat_ord, leb, leb→le, get_elem?, length, take, drop, if_either, Bool-cases, inl, inr,
  arith,
}
use rs_matter_server.Prelude.Text.{Text}
use rs_matter_server.Prelude.Text.Utf8.{from_utf8}
use rs_matter_server.Matter.Mdns.{
  NameStep, jump, label, end, truncated, step_at, pointer_step, label_step, label_of, slice,
  name_step, Parsed, parsed, failed, unfinished, name_loop, end_or, name_of, parse_name, join,
}

pub get_elem?-lt :
    {A : Type 0} (xs : List A) (i : ℕ) (x : A) → get_elem? xs i ≡ some x → i < length xs
get_elem?-lt [] i x h = cc
get_elem?-lt (y ∷ xs) zero x h = omega arith
get_elem?-lt (y ∷ xs) (suc i) x h = omega (arith, get_elem?-lt xs i x h)

-- What each step has read of the message.
abbrev Reads : List ℕ → ℕ → NameStep → Type 0
Reads message offset (jump pointer) = offset + 2 ≤ length message
Reads message offset (label l next) = (offset + 2 ≤ next) × (next ≤ length message)
Reads message offset end = offset + 1 ≤ length message
Reads message offset truncated = Unit

pointer-Reads :
    (message : List ℕ) (offset high : ℕ) (o : Option ℕ)
    → get_elem? message (offset + 1) ≡ o
    → Reads message offset (pointer_step high o)
unfolding pointer_step
pointer-Reads message offset high none h = tt
pointer-Reads message offset high (some low) h =
    omega (arith, get_elem?-lt message (offset + 1) low h)

label_of-Reads :
    (message : List ℕ) (offset next : ℕ) (o : Option Text)
    → offset + 2 ≤ next
    → next ≤ length message
    → Reads message offset (label_of next o)
unfolding label_of
label_of-Reads message offset next none a b = tt
label_of-Reads message offset next (some l) a b = (a, b)

label-Reads :
    (message : List ℕ) (offset n : ℕ)
    → (n == 0) ≡ false
    → Reads message offset (label_step (offset + 1 + n) (slice message (offset + 1) n))
unfolding label_step slice
label-Reads message offset n h = elim (Bool-cases (leb (offset + 1 + n) (length message))) [
  | inl fits ↦ rw fits (
      label_of-Reads message offset (offset + 1 + n)
        (from_utf8 (take n (drop (offset + 1) message))) (positive n h)
        (leb→le (offset + 1 + n) (length message) fits))
  | inr short ↦ rw short tt
]
  where
    positive : (n : ℕ) → (n == 0) ≡ false → offset + 2 ≤ offset + 1 + n
    positive n h = ground arith

step_at-Reads :
    (message : List ℕ) (offset : ℕ) (o : Option ℕ)
    → get_elem? message offset ≡ o
    → Reads message offset (step_at message offset o)
unfolding step_at
step_at-Reads message offset none h = tt
step_at-Reads message offset (some n) h =
    if_either (Reads message offset) (leb 0xc0 n) _ _
      (λ e. pointer-Reads message offset n (get_elem? message (offset + 1)) refl)
      (λ e.
        if_either (Reads message offset) (n == 0) _ _
          (λ z. omega (arith, get_elem?-lt message offset n h))
          (λ z. label-Reads message offset n z))

name_step-Reads : (message : List ℕ) (offset : ℕ) → Reads message offset (name_step message offset)
unfolding name_step
name_step-Reads message offset = step_at-Reads message offset (get_elem? message offset) refl

abbrev pub is_finished : Parsed → Bool
is_finished unfinished = false
is_finished failed = true
is_finished (parsed name next) = true

abbrev is_parsed : Parsed → Bool
is_parsed (parsed name next) = true
is_parsed failed = false
is_parsed unfinished = false

-- The end of the encoded form lies after its start, inside the message.
abbrev IsInside : List ℕ → Option ℕ → ℕ → Parsed → Type 0
IsInside message none offset (parsed name next) = (offset < next) × (next ≤ length message)
IsInside message (some e) offset (parsed name next) = next ≡ e
IsInside message none offset failed = Unit
IsInside message none offset unfinished = Unit
IsInside message (some e) offset failed = Unit
IsInside message (some e) offset unfinished = Unit

-- One round of the loop, by what stands at the offset: a property of what the loop ends in holds if
-- it holds in each case.
name_loop-round :
    (P : Parsed → Type 0) (message : List ℕ) (jumps fuel : ℕ) (labels : List Text) (e : Option ℕ)
    (offset : ℕ)
    → P failed
    → (offset + 1 ≤ length message → P (parsed (join labels) (end_or e (offset + 1))))
    → ((l : Text) (next : ℕ)
        → offset + 2 ≤ next
        → next ≤ length message
        → P (name_loop message jumps fuel (labels ++ (l ∷ [])) e next))
    → ((left pointer : ℕ)
        → jumps ≡ suc left
        → offset + 2 ≤ length message
        → P (
            name_loop message left
              (suc (length message))
              labels
              (some (end_or e (offset + 2)))
              pointer))
    → P (name_loop message jumps (suc fuel) labels e offset)
unfolding name_loop
name_loop-round P message jumps fuel labels e offset fails ends labels_on jumps_on =
    go jumps (name_step message offset) refl (name_step-Reads message offset) labels_on jumps_on
  where
    go :
        (jumps : ℕ) (s : NameStep)
        → name_step message offset ≡ s
        → Reads message offset s
        → ((l : Text) (next : ℕ)
            → offset + 2 ≤ next
            → next ≤ length message
            → P (name_loop message jumps fuel (labels ++ (l ∷ [])) e next))
        → ((left pointer : ℕ)
            → jumps ≡ suc left
            → offset + 2 ≤ length message
            → P (
                name_loop message left
                  (suc (length message))
                  labels
                  (some (end_or e (offset + 2)))
                  pointer))
        → P (name_loop message jumps (suc fuel) labels e offset)
    go zero truncated h r l j = rw (name_loop, h) fails
    go (suc left) truncated h r l j = rw (name_loop, h) fails
    go zero end h r l j = rw (name_loop, h) (ends r)
    go (suc left) end h r l j = rw (name_loop, h) (ends r)
    go zero (label t next) h (a, b) l j = rw (name_loop, h) (l t next a b)
    go (suc left) (label t next) h (a, b) l j = rw (name_loop, h) (l t next a b)
    go zero (jump pointer) h r l j = rw (name_loop, h) fails
    go (suc left) (jump pointer) h r l j = rw (name_loop, h) (j left pointer refl r)

suc_inj : {n m : ℕ} → suc n ≡ suc m → m ≡ n
suc_inj h = omega arith

name_loop-is_finished :
    (message : List ℕ) (jumps fuel : ℕ) (labels : List Text) (e : Option ℕ) (offset : ℕ)
    → length message < fuel + offset
    → 1 ≤ fuel
    → is_finished (name_loop message jumps fuel labels e offset) ≡ true
name_loop-is_finished message jumps zero labels e offset enough some_fuel = ground arith
name_loop-is_finished message zero (suc fuel) labels e offset enough some_fuel =
    name_loop-round (λ p. is_finished p ≡ true) message zero fuel labels e offset refl (λ r. refl)
      (λ l next a b.
        name_loop-is_finished message zero fuel (labels ++ (l ∷ [])) e next (omega arith)
          (omega arith))
      (λ left pointer same r. ground arith)
name_loop-is_finished message (suc jumps) (suc fuel) labels e offset enough some_fuel =
    name_loop-round (λ p. is_finished p ≡ true) message (suc jumps) fuel labels e offset refl
      (λ r. refl)
      (λ l next a b.
        name_loop-is_finished message (suc jumps) fuel (labels ++ (l ∷ [])) e next (omega arith)
          (omega arith))
      (λ left pointer same r. rw (suc_inj same) (
        name_loop-is_finished message jumps (suc (length message)) labels
          (some (end_or e (offset + 2))) pointer (omega arith) (omega arith)))

IsInside-further :
    (message : List ℕ) (e : Option ℕ) (offset next : ℕ) (p : Parsed)
    → offset ≤ next
    → IsInside message e next p
    → IsInside message e offset p
IsInside-further message none offset next (parsed name n) l (a, b) = (omega arith, b)
IsInside-further message none offset next failed l h = tt
IsInside-further message none offset next unfinished l h = tt
IsInside-further message (some e) offset next (parsed name n) l h = h
IsInside-further message (some e) offset next failed l h = tt
IsInside-further message (some e) offset next unfinished l h = tt

IsInside-jump :
    (message : List ℕ) (e : Option ℕ) (offset pointer : ℕ) (p : Parsed)
    → offset + 2 ≤ length message
    → IsInside message (some (end_or e (offset + 2))) pointer p
    → IsInside message e offset p
unfolding end_or
IsInside-jump message none offset pointer (parsed name n) l h = omega arith
IsInside-jump message none offset pointer failed l h = tt
IsInside-jump message none offset pointer unfinished l h = tt
IsInside-jump message (some e) offset pointer (parsed name n) l h = h
IsInside-jump message (some e) offset pointer failed l h = tt
IsInside-jump message (some e) offset pointer unfinished l h = tt

IsInside-end :
    (message : List ℕ) (e : Option ℕ) (offset : ℕ) (name : Text)
    → offset + 1 ≤ length message
    → IsInside message e offset (parsed name (end_or e (offset + 1)))
unfolding end_or
IsInside-end message none offset name l = omega arith
IsInside-end message (some e) offset name l = refl

IsInside-none :
    (message : List ℕ) (e : Option ℕ) (offset : ℕ) (p : Parsed)
    → is_parsed p ≡ false
    → IsInside message e offset p
IsInside-none message none offset failed h = tt
IsInside-none message none offset unfinished h = tt
IsInside-none message (some e) offset failed h = tt
IsInside-none message (some e) offset unfinished h = tt
IsInside-none message e offset (parsed name next) h = cc

name_loop-IsInside :
    (message : List ℕ) (jumps fuel : ℕ) (labels : List Text) (e : Option ℕ) (offset : ℕ)
    → IsInside message e offset (name_loop message jumps fuel labels e offset)
unfolding name_loop
name_loop-IsInside message zero zero labels e offset =
    IsInside-none message e offset unfinished refl
name_loop-IsInside message (suc jumps) zero labels e offset =
    IsInside-none message e offset unfinished refl
name_loop-IsInside message zero (suc fuel) labels e offset =
    name_loop-round (IsInside message e offset) message zero fuel labels e offset
      (IsInside-none message e offset failed refl)
      (λ r. IsInside-end message e offset (join labels) r)
      (λ l next a b.
        IsInside-further message e offset next _ (omega arith)
          (name_loop-IsInside message zero fuel (labels ++ (l ∷ [])) e next))
      (λ left pointer same r. ground arith)
name_loop-IsInside message (suc jumps) (suc fuel) labels e offset =
    name_loop-round (IsInside message e offset) message (suc jumps) fuel labels e offset
      (IsInside-none message e offset failed refl)
      (λ r. IsInside-end message e offset (join labels) r)
      (λ l next a b.
        IsInside-further message e offset next _ (omega arith)
          (name_loop-IsInside message (suc jumps) fuel (labels ++ (l ∷ [])) e next))
      (λ left pointer same r. IsInside-jump message e offset pointer _ r (
        rw (suc_inj same) (
          name_loop-IsInside message jumps (suc (length message)) labels
            (some (end_or e (offset + 2))) pointer)))

-- A name is read to its end or refused, whatever the bytes are: sixteen jumps, and between two of
-- them one round for each byte of the message and one more, are always enough.
pub parse_name_finishes :
    (message : List ℕ) (offset : ℕ)
    → is_finished (name_loop message 16 (suc (length message)) [] none offset) ≡ true
parse_name_finishes message offset =
    name_loop-is_finished message 16 (suc (length message)) [] none offset (omega arith)
      (omega arith)

inside_of :
    (message : List ℕ) (offset : ℕ) (p : Parsed) (name : Text) (next : ℕ)
    → IsInside message none offset p
    → name_of p ≡ some (name, next)
    → (offset < next) × (next ≤ length message)
unfolding name_of
inside_of message offset failed name next i h = cc
inside_of message offset unfinished name next i h = cc
inside_of message offset (parsed n m) name next (a, b) h = ground arith

-- The encoded form of a name that was read ends after its start, inside the message.
pub parse_name_moves_on :
    (message : List ℕ) (offset next : ℕ) (name : Text)
    → parse_name message offset ≡ some (name, next)
    → (offset < next) × (next ≤ length message)
unfolding parse_name
parse_name_moves_on message offset next name h =
    inside_of message offset (name_loop message 16 (suc (length message)) [] none offset) name next
      (name_loop-IsInside message 16 (suc (length message)) [] none offset) h
