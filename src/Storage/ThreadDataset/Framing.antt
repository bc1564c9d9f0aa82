-- ===== src/Storage/ThreadDataset/Framing.antt =====
-- server/src/storage/thread_dataset.rs: the loop against the framing as a relation.
use mathlib.Core.List.{foldl}
use rs_matter_server.Prelude.{
  ℕ, zero, suc, ◌+◌, ◌*◌, ◌≤◌, ◌≡◌, ◌↔◌, ◌≢◌, refl, true, Option, some, List, [], ◌∷◌, ◌++◌, ◌==◌,
  ==_iff, nat_ord, leb, leb→le, length, take, drop, length-append, arith, Bool-cases, Option-cases,
  unwrap_or, inl, inr, ap, sym, le→leb, none≢some, take-append-drop, length-take_le,
}
use rs_matter_server.Storage.ThreadDataset.{
  Tlv, OperationalDataset, default, extended_length_marker, take_value, extended, next_tlv,
  apply_tlv, decode_loop, decode_bytes,
}

-- Bytes that are a sequence of TLVs: the length of a value is one byte below the marker, or the
-- marker and two bytes, the high one first.
pub data Framed : List Tlv → List ℕ → Type 0 where
  done : Framed [] []
  short :
      (t n : ℕ) (value bytes rest : List ℕ) (tlvs : List Tlv)
      → n ≢ extended_length_marker
      → length value ≡ n
      → bytes ≡ t ∷ n ∷ value ++ rest
      → Framed tlvs rest
      → Framed ((t, value) ∷ tlvs) bytes
  long :
      (t high low : ℕ) (value bytes rest : List ℕ) (tlvs : List Tlv)
      → length value ≡ high * 256 + low
      → bytes ≡ t ∷ extended_length_marker ∷ high ∷ low ∷ value ++ rest
      → Framed tlvs rest
      → Framed ((t, value) ∷ tlvs) bytes

take-append : (value rest : List ℕ) (n : ℕ) → length value ≡ n → take n (value ++ rest) ≡ value
take-append [] rest zero e = refl
take-append [] rest (suc n) e = absurd (omega arith)
take-append (b ∷ value) rest zero e = absurd (omega arith)
take-append (b ∷ value) rest (suc n) e = ap (λ v. b ∷ v) (take-append value rest n (omega arith))

drop-append : (value rest : List ℕ) (n : ℕ) → length value ≡ n → drop n (value ++ rest) ≡ rest
drop-append [] rest zero e = refl
drop-append [] rest (suc n) e = absurd (omega arith)
drop-append (b ∷ value) rest zero e = absurd (omega arith)
drop-append (b ∷ value) rest (suc n) e = drop-append value rest n (omega arith)

take_value-append :
    (t n : ℕ) (value rest : List ℕ)
    → length value ≡ n
    → take_value t n (value ++ rest) ≡ some ((t, value), rest)
unfolding take_value
take_value-append t n value rest e =
    let fits : leb n (length (value ++ rest)) ≡ true =
      le→leb n _ (omega (arith, length-append value rest)) in
    rw fits (rw (take-append value rest n e) (rw (drop-append value rest n e)))

next_tlv-short :
    (t n : ℕ) (value rest : List ℕ)
    → n ≢ extended_length_marker
    → length value ≡ n
    → next_tlv (t ∷ n ∷ value ++ rest) ≡ some ((t, value), rest)
next_tlv-short t n value rest m e = elim (Bool-cases (n == extended_length_marker)) [
  | inl marker ↦ absurd (m ((==_iff n extended_length_marker).0 marker))
  | inr other ↦ unfold next_tlv in rw other (take_value-append t n value rest e)
]

next_tlv-long :
    (t high low : ℕ) (value rest : List ℕ)
    → length value ≡ high * 256 + low
    → next_tlv (t ∷ extended_length_marker ∷ high ∷ low ∷ value ++ rest) ≡ some ((t, value), rest)
next_tlv-long t high low value rest e = unfold next_tlv in take_value-append t _ value rest e

decode_loop-step :
    (fuel : ℕ) (d : OperationalDataset) (b : ℕ) (bytes rest : List ℕ) (tlv : Tlv)
    → next_tlv (b ∷ bytes) ≡ some (tlv, rest)
    → decode_loop (suc fuel) d (b ∷ bytes) ≡ decode_loop fuel (apply_tlv d tlv) rest
unfolding decode_loop
decode_loop-step fuel d b bytes rest tlv e = rw (e, decode_loop)

-- The loop reads framed bytes to the end: the fuel suffices.
decode_loop_complete :
    (fuel : ℕ) (d : OperationalDataset) (tlvs : List Tlv) (bytes : List ℕ)
    → Framed tlvs bytes
    → length bytes ≤ fuel
    → decode_loop fuel d bytes ≡ some (foldl apply_tlv d tlvs)
decode_loop_complete fuel d _ _ done h = unfold decode_loop in refl
decode_loop_complete zero d _ _ (short t n value bytes rest tlvs m e p f) h =
    absurd (omega (arith, ap length p))
decode_loop_complete (suc fuel) d _ _ (short t n value bytes rest tlvs m e p f) h = rw p (
    rw
      (decode_loop-step fuel d t (n ∷ value ++ rest) rest (t, value)
        (next_tlv-short t n value rest m e))
      (decode_loop_complete fuel (apply_tlv d (t, value)) tlvs rest f
        (omega (arith, ap length p, length-append value rest))))
decode_loop_complete zero d _ _ (long t high low value bytes rest tlvs e p f) h =
    absurd (omega (arith, ap length p))
decode_loop_complete (suc fuel) d _ _ (long t high low value bytes rest tlvs e p f) h = rw p (
    rw
      (decode_loop-step fuel d t (extended_length_marker ∷ high ∷ low ∷ value ++ rest) rest
        (t, value) (next_tlv-long t high low value rest e))
      (decode_loop_complete fuel (apply_tlv d (t, value)) tlvs rest f
        (omega (arith, ap length p, length-append value rest))))

-- What one round takes off the slice.
record Took (bytes : List ℕ) (tlv : Tlv) (rest : List ℕ) : Type 0 where
  frames : (tlvs : List Tlv) → Framed tlvs rest → Framed (tlv ∷ tlvs) bytes

take_value_sound :
    (t n : ℕ) (bytes rest : List ℕ) (tlv : Tlv)
    → take_value t n bytes ≡ some (tlv, rest)
    → (tlv.0 ≡ t) × (length tlv.1 ≡ n) × (bytes ≡ tlv.1 ++ rest)
unfolding take_value
take_value_sound t n bytes rest tlv h = elim (Bool-cases (leb n (length bytes))) [
  | inl fits ↦
      let e : some ((t, take n bytes), drop n bytes) ≡ some (tlv, rest) =
        rw (fits, take_value) at h in
      let v : take n bytes ≡ tlv.1 =
        ap (λ (o : Option (Tlv × List ℕ)). (unwrap_or {A = Tlv × List ℕ} o (tlv, rest)).0.1) e in
      let r : drop n bytes ≡ rest =
        ap (λ (o : Option (Tlv × List ℕ)). (unwrap_or {A = Tlv × List ℕ} o (tlv, rest)).1) e in
      (
        sym (
            ap (λ (o : Option (Tlv × List ℕ)). (unwrap_or {A = Tlv × List ℕ} o (tlv, rest)).0.0) e),
        rw (← v) (length-take_le n bytes (leb→le n _ fits)),
        rw (← v) (rw (← r) (sym (take-append-drop n bytes))),
      )
  | inr lacks ↦ absurd (none≢some (rw (lacks, take_value) at h))
]

take_short :
    (t n : ℕ) (bytes rest : List ℕ) (tlv : Tlv)
    → n ≢ extended_length_marker
    → take_value t n bytes ≡ some (tlv, rest)
    → Took (t ∷ n ∷ bytes) tlv rest
take_short t n bytes rest (u, value) m h =
    let (p, e, q) = take_value_sound t n bytes rest (u, value) h in
    record {
      frames =
          λ tlvs f. rw p (short t n value (t ∷ n ∷ bytes) rest tlvs m e (ap (λ l. t ∷ n ∷ l) q) f);
    }

take_long :
    (t : ℕ) (bytes rest : List ℕ) (tlv : Tlv)
    → extended t bytes ≡ some (tlv, rest)
    → Took (t ∷ extended_length_marker ∷ bytes) tlv rest
unfolding extended
take_long t [] rest tlv h = absurd (none≢some h)
take_long t (high ∷ []) rest tlv h = absurd (none≢some h)
take_long t (high ∷ low ∷ bytes) rest (u, value) h =
    let (p, e, q) = take_value_sound t (high * 256 + low) bytes rest (u, value) h in
    record {
      frames = λ tlvs f. rw p (
          long t high low value (t ∷ extended_length_marker ∷ high ∷ low ∷ bytes) rest tlvs e
            (ap (λ l. t ∷ extended_length_marker ∷ high ∷ low ∷ l) q) f);
    }

next_tlv_sound :
    (bytes rest : List ℕ) (tlv : Tlv) → next_tlv bytes ≡ some (tlv, rest) → Took bytes tlv rest
unfolding next_tlv
next_tlv_sound [] rest tlv h = absurd (none≢some h)
next_tlv_sound (t ∷ []) rest tlv h = absurd (none≢some h)
next_tlv_sound (t ∷ n ∷ bytes) rest tlv h = elim (Bool-cases (n == extended_length_marker)) [
  | inl marker ↦
      rw ((==_iff n extended_length_marker).0 marker)
        (take_long t bytes rest tlv (rw (marker, next_tlv) at h))
  | inr other ↦
      take_short t n bytes rest tlv (λ p. ground (arith, ==_iff n extended_length_marker))
        (rw (other, next_tlv) at h)
]

decode_loop_sound :
    (fuel : ℕ) (d d' : OperationalDataset) (bytes : List ℕ)
    → decode_loop fuel d bytes ≡ some d'
    → (tlvs : List Tlv) × Framed tlvs bytes × (d' ≡ foldl apply_tlv d tlvs)
unfolding decode_loop
decode_loop_sound fuel d d' [] h = ([], done, ground arith)
decode_loop_sound zero d d' (b ∷ bytes) h = cc
decode_loop_sound (suc fuel) d d' (b ∷ bytes) h = elim (Option-cases (next_tlv (b ∷ bytes))) [
  | inl bad ↦ absurd (none≢some (rw (bad, decode_loop) at h))
  | inr ((tlv, rest), e) ↦
      let (tlvs, f, r) =
        decode_loop_sound fuel (apply_tlv d tlv) d' rest (rw (e, decode_loop) at h) in
      (tlv ∷ tlvs, (next_tlv_sound (b ∷ bytes) rest tlv e).frames tlvs f, r)
]

-- A dataset decodes exactly when its bytes are framed as TLVs, and then to the TLVs applied in
-- their order. The loop's fuel never runs out first.
pub decode_bytes_iff :
    (bytes : List ℕ) (d : OperationalDataset)
    → (decode_bytes bytes ≡ some d)
      ↔ ((tlvs : List Tlv) × Framed tlvs bytes × (d ≡ foldl apply_tlv default tlvs))
unfolding decode_bytes
decode_bytes_iff bytes d = (
  decode_loop_sound (length bytes) default d bytes,
  λ (tlvs, f, e). rw e (decode_loop_complete (length bytes) default tlvs bytes f (omega arith)),
)
