-- ===== src/Matter/Mdns/Query/Reading.antt =====
-- server/src/matter/mdns_browser.rs: the packet reader finds the name that a query asks for.
use Prim.Native.Nat.{min}
use rs_matter_server.Prelude.{
  ℕ, zero, suc, ◌+◌, ◌≤◌, ◌<◌, ◌≡◌, refl, sym, ◌∙◌, ap, true, false, Option, none, some, List, [],
  ◌∷◌, ◌++◌, ◌==◌, nat_ord, text_ord, leb, length, take, drop, get_elem?, All, arith, ==_iff,
  Bool-cases, inl, inr, length-append, take-length, le→leb,
}
use mathlib.Core.List.{append_assoc, append-nil}
use rs_matter_server.Prelude.Text.{Text, split}
use rs_matter_server.Prelude.Text.Utf8.{to_utf8, IsScalar, from_utf8-to_utf8}
use rs_matter_server.Matter.Mdns.{
  label, end, name_step, slice, name_loop, parsed, parse_name, join, step_at, label_step, label_of,
  end_or, name_of,
}
use rs_matter_server.Matter.Mdns.Answers.{trim_dots}
use rs_matter_server.Matter.Mdns.Query.{encode_labels, encode_name, build_query}

-- A label that a packet can carry as it is.
abbrev pub IsLabel : Text → Type 0
IsLabel l = All IsScalar l × ((1 ≤ length (to_utf8 l)) × (length (to_utf8 l) ≤ 63))

encode_labels-cons :
    (l : Text) (labels : List Text)
    → IsLabel l
    → encode_labels (l ∷ labels) ≡ length (to_utf8 l) ∷ to_utf8 l ++ encode_labels labels
unfolding encode_labels
encode_labels-cons l labels (s, (a, b)) = rw (least (length (to_utf8 l)) b, whole (to_utf8 l)) refl
  where
    least : (n : ℕ) → n ≤ 63 → min n 63 ≡ n
    least n h = omega arith

    whole : (bytes : List ℕ) → take (length bytes) bytes ≡ bytes
    whole [] = refl
    whole (x ∷ xs) = ap (λ ys. x ∷ ys) (whole xs)

get_elem?-append :
    (pre : List ℕ) (n : ℕ) (rest : List ℕ) → get_elem? (pre ++ (n ∷ rest)) (length pre) ≡ some n
get_elem?-append [] n rest = refl
get_elem?-append (x ∷ pre) n rest = get_elem?-append pre n rest

drop-past :
    (pre : List ℕ) (n : ℕ) (rest : List ℕ) → drop (length pre + 1) (pre ++ (n ∷ rest)) ≡ rest
drop-past [] n rest = refl
drop-past (x ∷ pre) n rest = rw (later (length pre)) (drop-past pre n rest)
  where
    later : (k : ℕ) → suc k + 1 ≡ suc (k + 1)
    later k = omega arith

slice-label :
    (pre bytes rest : List ℕ)
    → slice (pre ++ (length bytes ∷ bytes ++ rest)) (length pre + 1) (length bytes) ≡ some bytes
unfolding slice
slice-label pre bytes rest =
    rw (fits, drop-past pre (length bytes) (bytes ++ rest), take-length bytes rest) refl
  where
    fits :
        leb (length pre + 1 + length bytes) (length (pre ++ (length bytes ∷ bytes ++ rest))) ≡ true
    fits = le→leb _ _ (
        rw (length-append pre (length bytes ∷ bytes ++ rest), length-append bytes rest)
          (omega arith))

step-label :
    (pre rest : List ℕ) (l : Text)
    → IsLabel l
    → name_step (pre ++ (length (to_utf8 l) ∷ to_utf8 l ++ rest)) (length pre)
      ≡ label l (length pre + 1 + length (to_utf8 l))
unfolding name_step step_at label_step label_of
step-label pre rest l (s, (a, b)) =
    rw
      (
        get_elem?-append pre (length (to_utf8 l)) (to_utf8 l ++ rest),
        small (length (to_utf8 l)) b,
        positive (length (to_utf8 l)) a,
        slice-label pre (to_utf8 l) rest,
        from_utf8-to_utf8 l s,
      )
      refl
  where
    small : (n : ℕ) → n ≤ 63 → leb 0xc0 n ≡ false
    small n h = ground arith

    positive : (n : ℕ) → 1 ≤ n → (n == 0) ≡ false
    positive n h = ground arith

step-end : (pre post : List ℕ) → name_step (pre ++ (0 ∷ post)) (length pre) ≡ end
unfolding name_step step_at
step-end pre post = rw (get_elem?-append pre 0 post) refl

encode_labels-nil : encode_labels [] ≡ []
unfolding encode_labels
encode_labels-nil = refl

parsed-same : {s t : Text} {m n : ℕ} → s ≡ t → m ≡ n → parsed s m ≡ parsed t n
parsed-same p q = cc

-- The loop, at a place in a message from which on the labels stand.
loop-labels :
    (labels acc : List Text) (left fuel : ℕ) (message pre post : List ℕ) (offset : ℕ)
    → All IsLabel labels
    → length labels < fuel
    → message ≡ pre ++ (encode_labels labels ++ (0 ∷ post))
    → offset ≡ length pre
    → name_loop message (suc left) fuel acc none offset
      ≡ parsed (join (acc ++ labels)) (offset + length (encode_labels labels) + 1)
unfolding name_loop end_or
loop-labels labels acc left zero message pre post offset h f e o = absurd (omega arith)
loop-labels [] acc left (suc fuel) message pre post offset h f e o =
    rw (name_loop, at_end)
      (parsed-same (ap join (sym (append-nil acc))) (rw encode_labels-nil (omega arith)))
  where
    at_end : name_step message offset ≡ end
    at_end = rw (e, o, encode_labels-nil) (step-end pre post)
loop-labels (l ∷ labels) acc left (suc fuel) message pre post offset (p, h) f e o =
    rw (name_loop, at_label)
      (loop-labels labels (acc ++ (l ∷ [])) left fuel message
          (pre ++ (length (to_utf8 l) ∷ to_utf8 l)) post (offset + 1 + length (to_utf8 l)) h
          (omega arith)
          (whole
            ∙ sym (
                append_assoc pre (length (to_utf8 l) ∷ to_utf8 l)
                  (encode_labels labels ++ (0 ∷ post))))
          (rw (length-append pre (length (to_utf8 l) ∷ to_utf8 l)) (omega (arith, o)))
        ∙ parsed-same (ap join (append_assoc acc (l ∷ []) labels)) (
            rw (encode_labels-cons l labels p, length-append (to_utf8 l) (encode_labels labels))
              (omega arith)))
  where
    whole :
        message ≡ pre ++ (length (to_utf8 l) ∷ to_utf8 l ++ (encode_labels labels ++ (0 ∷ post)))
    whole =
        e
        ∙ ap (λ bytes. pre ++ (bytes ++ (0 ∷ post))) (encode_labels-cons l labels p)
        ∙ ap (λ bytes. pre ++ (length (to_utf8 l) ∷ bytes))
            (append_assoc (to_utf8 l) (encode_labels labels) (0 ∷ post))

    at_label : name_step message offset ≡ label l (offset + 1 + length (to_utf8 l))
    at_label = rw (whole, o) (step-label pre (encode_labels labels ++ (0 ∷ post)) l p)

split-first :
    (sep : ℕ) (s : Text) → (first : Text) × (rest : List Text) × (split sep s ≡ first ∷ rest)
unfolding split
split-first sep [] = ([], [], refl)
split-first sep (c ∷ s) = elim (Bool-cases (c == sep)) [
  | inl e ↦ ([], split sep s, rw e refl)
  | inr e ↦ let (first, rest, h) = split-first sep s in (c ∷ first, rest, rw (e, h) refl)
]

join-push :
    (c : ℕ) (first : Text) (rest : List Text) → join ((c ∷ first) ∷ rest) ≡ c ∷ join (first ∷ rest)
unfolding join
join-push c first [] = refl
join-push c first (l ∷ rest) = refl

join-split : (s : Text) → join (split b'.' s) ≡ s
unfolding split join
join-split [] = refl
join-split (c ∷ s) =
    let (first, rest, h) = split-first b'.' s in
    let found : join (first ∷ rest) ≡ s = ap join (sym h) ∙ join-split s in
    elim (Bool-cases (c == b'.')) [
      | inl e ↦ rw (e, h) (ap (λ t. b'.' ∷ t) found ∙ ap (λ d. d ∷ s) (sym ((==_iff c b'.').0 e)))
      | inr e ↦ rw (e, h) (join-push c first rest ∙ ap (λ t. c ∷ t) found)
    ]

length-labels : (labels : List Text) → length labels ≤ length (encode_labels labels)
unfolding encode_labels
length-labels [] = omega arith
length-labels (l ∷ labels) =
    rw (length-append (take (min (length (to_utf8 l)) 63) (to_utf8 l)) (encode_labels labels))
      (omega (arith, length-labels labels))

-- The name in a query is read back from the packet: where the labels of a service have one byte to 63,
-- reading the question finds the service, without the dots it ends in, and where the name ends.
pub parse_name-build_query :
    (service : Text)
    → All IsLabel (split b'.' (trim_dots service))
    → parse_name (build_query service) 12
      ≡ some (trim_dots service, 12 + length (encode_name service))
unfolding parse_name build_query encode_name name_of
parse_name-build_query service h =
    ap name_of (
      loop-labels labels [] 15 (suc (length message)) message header (0 ∷ 12 ∷ 0x80 ∷ 1 ∷ []) 12 h
        fuel whole refl)
    ∙ found (join-split (trim_dots service)) ending
  where
    labels : List Text
    labels = split b'.' (trim_dots service)

    header : List ℕ
    header = 0 ∷ 0 ∷ 0 ∷ 0 ∷ 0 ∷ 1 ∷ 0 ∷ 0 ∷ 0 ∷ 0 ∷ 0 ∷ 0 ∷ []

    message : List ℕ
    message = build_query service

    whole : message ≡ header ++ (encode_labels labels ++ (0 ∷ 0 ∷ 12 ∷ 0x80 ∷ 1 ∷ []))
    whole =
        ap (λ bytes. header ++ bytes)
          (append_assoc (encode_labels labels) (0 ∷ []) (0 ∷ 12 ∷ 0x80 ∷ 1 ∷ []))

    fuel : length labels < suc (length message)
    fuel =
        let e = length-append header (encode_labels labels ++ (0 ∷ 0 ∷ 12 ∷ 0x80 ∷ 1 ∷ [])) in
        let f = length-append (encode_labels labels) (0 ∷ 0 ∷ 12 ∷ 0x80 ∷ 1 ∷ []) in
        omega (arith, length-labels labels, ap length whole, e, f)

    ending : 12 + length (encode_labels labels) + 1 ≡ 12 + length (encode_name service)
    ending = rw (length-append (encode_labels labels) (0 ∷ [])) (omega arith)

    found :
        {s t : Text} {m n : ℕ}
        → s ≡ t
        → m ≡ n
        → ◌≡◌ {A = Option (Text × ℕ)} (some (s, m)) (some (t, n))
    found p q = cc
