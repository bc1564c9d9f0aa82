-- ===== src/Migrate/Value/Stable.antt =====
-- server/src/migrate/value.rs: decoding ends, however deep documents are nested inside texts.
use mathlib.Core.Option
use rs_matter_server.Prelude.{
  unwrap_or, ℕ, zero, suc, ◌≤◌, ◌<◌, ◌≡◌, refl, sym, ap, Option, none, some, [], ◌==◌, text_ord,
  length, arith, Bool-cases, Option-cases, inl, inr,
}
use rs_matter_server.Prelude.Text.{Text}
use rs_matter_server.Protocol.Json.{Numbers, Value, Items, Fields, as_str}
use rs_matter_server.Protocol.Json
use rs_matter_server.Migrate.Value.{
  Formats, MjValue, Kind, undefined, wide_id, uint8_array, map_entries, narrow_id, unknown, kind_of,
  type_key, value_key, longest, longest_item, longest_field, looks_tagged, decode_tagged,
  from_string, convert, convert_items, convert_fields, nested, from_json_str, from_json,
}

-- The same value, the same bound.
pub longest_eq : {N : Type 0} (v w : Value N) → some v ≡ some w → longest v ≡ longest w
longest_eq v w h = ap (λ o. unwrap_or (Option.map longest o) 0) h

longest_field-get :
    {N : Type 0} (k : Text) (fs : Fields N) (v : Value N)
    → Json.get_field k fs ≡ some v
    → longest v ≤ longest_field fs
unfolding Json.get_field longest
longest_field-get k Fields.end v h = cc
longest_field-get k (Fields.field j w fs) v h = elim (Bool-cases (j == k)) [
  | inl e ↦ let q = longest_eq w v (rw e at h) in omega arith
  | inr e ↦ let q = longest_field-get k fs v (rw e at h) in omega arith
]

longest-get :
    {N : Type 0} (k : Text) (o v : Value N) → Json.get k o ≡ some v → longest v ≤ longest o
unfolding Json.get longest
longest-get k (Value.object fs) v h = longest_field-get k fs v h
longest-get k Value.null v h = cc
longest-get k (Value.bool b) v h = cc
longest-get k (Value.number n) v h = cc
longest-get k (Value.string s) v h = cc
longest-get k (Value.array vs) v h = cc

length-as_str : {N : Type 0} (v : Value N) (s : Text) → as_str v ≡ some s → length s ≤ longest v
unfolding longest
length-as_str (Value.string t) s h =
    (let q : length t ≡ length s = ap (λ o. length (unwrap_or o [])) h in omega arith)
length-as_str Value.null s h = cc
length-as_str (Value.bool b) s h = cc
length-as_str (Value.number n) s h = cc
length-as_str (Value.array vs) s h = cc
length-as_str (Value.object fs) s h = cc

module _ {N F : Type 0} ⦃num : Numbers N⦄ (fmt : Formats N F) where
  -- A text inside a document is shorter than the document, which quotes it.
  abbrev pub Quotes : Type 0
  Quotes = (s : Text) (v : Value N) → fmt.parse_json s ≡ some v → longest v < length s

  abbrev pub Agree : (Text → Option (MjValue F)) → (Text → Option (MjValue F)) → ℕ → Type 0
  Agree f g bound = (s : Text) → length s < bound → f s ≡ g s

  tagged_text :
      (f g : Text → Option (MjValue F)) (s : Text) (kind : Text) (tagged : Value N)
      (value : Option (Value N))
      → fmt.parse_json s ≡ some tagged
      → value ≡ Json.get value_key tagged
      → Quotes
      → Agree f g (length s)
      → (k : Kind) → decode_tagged fmt f k value ≡ decode_tagged fmt g k value
  unfolding decode_tagged
  tagged_text f g s kind tagged none p e q a map_entries = refl
  tagged_text f g s kind tagged (some w) p e q a map_entries = elim (Option-cases (as_str w)) [
    | inl n ↦ rw n refl
    | inr (t, n) ↦ rw n (
        a t (
          let short = q s tagged p in
          let inside = longest-get value_key tagged w (sym e) in
          let fits = length-as_str w t n in omega arith))
  ]
  tagged_text f g s kind tagged value p e q a undefined = refl
  tagged_text f g s kind tagged value p e q a wide_id = refl
  tagged_text f g s kind tagged value p e q a uint8_array = refl
  tagged_text f g s kind tagged value p e q a narrow_id = refl
  tagged_text f g s kind tagged value p e q a unknown = refl

  from_string-Agree :
      (f g : Text → Option (MjValue F)) (s : Text)
      → Quotes
      → Agree f g (length s)
      → from_string fmt f s ≡ from_string fmt g s
  unfolding from_string
  from_string-Agree f g s q a = elim (Bool-cases (looks_tagged s)) [
    | inr e ↦ rw e refl
    | inl e ↦ rw e (elim (Option-cases (fmt.parse_json s)) [
      | inl n ↦ rw n refl
      | inr (tagged, p) ↦ rw p (elim (Option-cases (Json.get type_key tagged)) [
        | inl n ↦ rw n refl
        | inr (k, n) ↦ rw n (elim (Option-cases (as_str k)) [
          | inl m ↦ rw m refl
          | inr (kind, m) ↦ rw m (
              rw
                (tagged_text f g s kind tagged (Json.get value_key tagged) p refl q a
                  (kind_of kind))
                refl)
        ])
      ])
    ])
  ]

  mutual
    unfolding convert convert_items convert_fields longest longest_item longest_field

    convert-Agree :
        (f g : Text → Option (MjValue F)) (v : Value N)
        → Quotes
        → Agree f g (longest v)
        → convert fmt f v ≡ convert fmt g v
    convert-Agree f g Value.null q a = refl
    convert-Agree f g (Value.bool b) q a = refl
    convert-Agree f g (Value.number n) q a = refl
    convert-Agree f g (Value.string s) q a = from_string-Agree f g s q a
    convert-Agree f g (Value.array vs) q a = rw (items-Agree f g vs q a) refl
    convert-Agree f g (Value.object fs) q a = rw (fields-Agree f g fs q a) refl

    items-Agree :
        (f g : Text → Option (MjValue F)) (vs : Items N)
        → Quotes
        → Agree f g (longest_item vs)
        → convert_items fmt f vs ≡ convert_items fmt g vs
    items-Agree f g Items.nil q a = refl
    items-Agree f g (Items.cons v vs) q a =
        rw
          (
            convert-Agree f g v q (λ s h. a s (omega arith)),
            items-Agree f g vs q (λ s h. a s (omega arith)),
          )
          refl

    fields-Agree :
        (f g : Text → Option (MjValue F)) (fs : Fields N)
        → Quotes
        → Agree f g (longest_field fs)
        → convert_fields fmt f fs ≡ convert_fields fmt g fs
    fields-Agree f g Fields.end q a = refl
    fields-Agree f g (Fields.field k v fs) q a =
        rw
          (
            convert-Agree f g v q (λ s h. a s (omega arith)),
            fields-Agree f g fs q (λ s h. a s (omega arith)),
          )
          refl

  nested_enough :
      (a b : ℕ) (s : Text) → Quotes → length s ≤ a → length s ≤ b → nested fmt a s ≡ nested fmt b s
  unfolding nested
  nested_enough zero zero s q h k = refl
  nested_enough zero (suc b) s q h k = elim (Option-cases (fmt.parse_json s)) [
    | inl n ↦ rw n refl
    | inr (v, p) ↦ absurd (let short = q s v p in omega arith)
  ]
  nested_enough (suc a) zero s q h k = elim (Option-cases (fmt.parse_json s)) [
    | inl n ↦ rw n refl
    | inr (v, p) ↦ absurd (let short = q s v p in omega arith)
  ]
  nested_enough (suc a) (suc b) s q h k = elim (Option-cases (fmt.parse_json s)) [
    | inl n ↦ rw n refl
    | inr (v, p) ↦ rw p (
        ap (λ w. some w)
          (convert-Agree (nested fmt a) (nested fmt b) v q (λ t l.
            nested_enough a b t q (let short = q s v p in omega arith)
              (let short = q s v p in omega arith))))
  ]

  from_json_str-nested :
      (depth : ℕ) (s : Text) → Quotes → length s ≤ depth → nested fmt depth s ≡ from_json_str fmt s
  unfolding from_json_str from_json nested
  from_json_str-nested zero s q h = elim (Option-cases (fmt.parse_json s)) [
    | inl n ↦ rw n refl
    | inr (v, p) ↦ absurd (let short = q s v p in omega arith)
  ]
  from_json_str-nested (suc depth) s q h = elim (Option-cases (fmt.parse_json s)) [
    | inl n ↦ rw n refl
    | inr (v, p) ↦ rw p (
        ap (λ w. some w)
          (convert-Agree (nested fmt depth) (nested fmt (longest v)) v q (λ t l.
            nested_enough depth (longest v) t q (let short = q s v p in omega arith)
              (omega arith))))
  ]

  -- Decoding ends, however deep documents are nested inside texts, and is what the code's recursion
  -- says: a text inside a value is decoded by decoding the document it holds, where a text inside a
  -- document is shorter than the document.
  pub from_json-convert :
      Quotes → (v : Value N) → from_json fmt v ≡ convert fmt (from_json_str fmt) v
  unfolding from_json
  from_json-convert q v =
      convert-Agree (nested fmt (longest v)) (from_json_str fmt) v q
        (λ s l. from_json_str-nested (longest v) s q (omega arith))
