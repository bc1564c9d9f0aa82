-- ===== src/Protocol/Paths/Laws.antt =====
-- server/src/protocol/paths.rs: parsing against printing, and what writes accept.
use mathlib.Core.Path.{subst}
use native.Mathlib.Nat.{mod-eq_of_lt}
use rs_matter_server.Prelude.{
  ◌∙◌, ap, ◌%◌, ◌^◌, ℕ, ◌≤◌, ◌<◌, ◌≡◌, ◌↔◌, refl, Option, none, some, List, [], ◌∷◌, ok, ◌>>=◌,
  arith, >>=-eq-ok, Bool-cases, inl, inr, le→ltb, ◌==◌, ==_iff, text_ord,
}
use rs_matter_server.Prelude.Text.{Text, text, show, split, parse_uint}
use rs_matter_server.Prelude.Text.Split.{Lacks, split-append, split_of_Lacks}
use rs_matter_server.Prelude.Text.Numbers.{parse_uint-show, show-Lacks}
use rs_matter_server.Protocol.Json.{u64_max}
use rs_matter_server.Protocol.Message.{Args, u16_max, u32_max}
use rs_matter_server.Protocol.Paths.{
  ParsedPath, format_path, segment, in_range, narrow, parse_parts, parse_path, parse_path_arg,
  parse_write_path, single, concrete,
}

-- A number in range is read as itself: what is printed is no `*`.
segment-show :
    (name : Text) (max n : ℕ) → n ≤ max → max ≤ u64_max → segment (show n) name max ≡ ok (some n)
unfolding segment
segment-show name max n h m = elim (Bool-cases (show n == text "*")) [
  | inl star ↦ absurd (star_is_no_digit ((==_iff (show n) (text "*")).0 star))
  | inr digits ↦
      rw digits
        (rw (parse_uint-show u64_max n (omega arith)) (unfold in_range in rw (le→ltb max n h)))
]
  where
    star_is_no_digit : show n ≡ text "*" → ⊥
    star_is_no_digit p = (subst (Lacks 42) p (show-Lacks 42 n (omega arith))).0 refl

-- The path that `format_path` writes is read back, for ids that fit their types.
pub parse_path-format_path :
    (e c a : ℕ)
    → e ≤ u16_max
    → c ≤ u32_max
    → a ≤ u32_max
    → parse_path (format_path e c a)
      ≡ ok (record { endpoint = some e; cluster = some c; attribute = some a })
unfolding parse_path format_path parse_parts narrow
parse_path-format_path e c a he hc ha =
    rw (split-append b'/' (show e) _ (show-Lacks b'/' e (omega arith))) (
      rw (split-append b'/' (show c) _ (show-Lacks b'/' c (omega arith))) (
        rw (split_of_Lacks b'/' (show a) (show-Lacks b'/' a (omega arith))) (
          rw (segment-show _ u16_max e he (omega arith)) (
            rw (segment-show _ u32_max c hc (omega arith))
              (rw (segment-show _ u32_max a ha (omega arith)) (ground arith))))))

-- How a part of the path's text is read: a `*` is no value, a number is in the field's range.
abbrev pub Reads : Text → ℕ → Option ℕ → Type 0
Reads raw max none = raw ≡ text "*"
Reads raw max (some n) = (parse_uint 10 u64_max raw ≡ some n) × (n ≤ max)

in_range-Reads :
    (raw name : Text) (max : ℕ) (r o : Option ℕ)
    → parse_uint 10 u64_max raw ≡ r
    → in_range raw name max r ≡ ok o
    → Reads raw max o
unfolding in_range
in_range-Reads raw name max none o e h = cc
in_range-Reads raw name max (some n) none e h = ground arith
in_range-Reads raw name max (some n) (some m) e h = ground arith

segment-Reads :
    (raw name : Text) (max : ℕ) (o : Option ℕ) → segment raw name max ≡ ok o → Reads raw max o
unfolding segment
segment-Reads raw name max o h = elim (Bool-cases (raw == text "*")) [
  | inl star ↦ starred o (ground arith) ((==_iff raw (text "*")).0 star)
  | inr other ↦ in_range-Reads raw name max _ o refl (rw (other, segment) at h)
]
  where
    starred : (o : Option ℕ) → o ≡ none → raw ≡ text "*" → Reads raw max o
    starred none e p = p
    starred (some n) e p = cc

narrow-Reads :
    (raw : Text) (max modulus : ℕ) (o : Option ℕ)
    → max < modulus
    → Reads raw max o
    → Reads raw max (narrow modulus o)
unfolding narrow
narrow-Reads raw max modulus none h r = r
narrow-Reads raw max modulus (some n) h (e, b) =
    let same : n % modulus ≡ n = mod-eq_of_lt (omega arith) in rw same (e, b)

-- The three parts of a path's text, and how each is read.
pub record PathReads (raw : Text) (p : ParsedPath) : Type 0 where
  pub first : Text
  pub second : Text
  pub third : Text
  pub parts : split b'/' raw ≡ first ∷ second ∷ third ∷ []
  pub endpoint : Reads first u16_max p.endpoint
  pub cluster : Reads second u32_max p.cluster
  pub attribute : Reads third u32_max p.attribute

parse_parts-PathReads :
    (raw : Text) (parts : List Text) (p : ParsedPath)
    → split b'/' raw ≡ parts
    → parse_parts raw parts ≡ ok p
    → PathReads raw p
unfolding parse_parts
parse_parts-PathReads raw (a ∷ b ∷ c ∷ []) p parts h =
    let (e, he, h₁) = >>=-eq-ok (segment a _ u16_max) _ h in
    let (k, hk, h₂) = >>=-eq-ok (segment b _ u32_max) _ h₁ in
    let (t, ht, h₃) = >>=-eq-ok (segment c _ u32_max) _ h₂ in
    record {
      first = a;
      second = b;
      third = c;
      parts = parts;
      endpoint =
          subst (Reads a u16_max) (ground arith)
            (narrow-Reads a u16_max (2 ^ 16) e (omega arith) (segment-Reads a _ u16_max e he));
      cluster =
          subst (Reads b u32_max) (ground arith)
            (narrow-Reads b u32_max (2 ^ 32) k (omega arith) (segment-Reads b _ u32_max k hk));
      attribute =
          subst (Reads c u32_max) (ground arith)
            (narrow-Reads c u32_max (2 ^ 32) t (omega arith) (segment-Reads c _ u32_max t ht));
    }
parse_parts-PathReads raw _ p parts h = cc

-- A path that parses has three parts; a `*` is read as no value, anything else as the number that
-- it spells, which fits the field and is not cut.
pub parse_path-PathReads : (raw : Text) (p : ParsedPath) → parse_path raw ≡ ok p → PathReads raw p
unfolding parse_path
parse_path-PathReads raw p h = parse_parts-PathReads raw (split b'/' raw) p refl h

-- A write is accepted exactly for one path without a wildcard, and gets its three ids.
pub parse_write_path_iff :
    {N : Type 0} (args : Args N) (e c a : ℕ)
    → (parse_write_path args ≡ ok (e, c, a)) ↔ (
        parse_path_arg args
        ≡ ok (record { endpoint = some e; cluster = some c; attribute = some a } ∷ []))
unfolding parse_write_path
parse_write_path_iff args e c a = (forth, λ h. rw h (unfold single concrete in refl))
  where
    path_of :
        (ps : List ParsedPath)
        → (single ps >>= λ p. concrete p.endpoint p.cluster p.attribute) ≡ ok (e, c, a)
        → ps ≡ record { endpoint = some e; cluster = some c; attribute = some a } ∷ []
    path_of [] h = unfold single in cc h
    path_of (p ∷ []) h = unfold single concrete in ground arith
    path_of (p ∷ q ∷ ps) h = unfold single in cc h

    forth :
        parse_write_path args ≡ ok (e, c, a)
        → parse_path_arg args
          ≡ ok (record { endpoint = some e; cluster = some c; attribute = some a } ∷ [])
    forth h = let (ps, hp, hc) = >>=-eq-ok (parse_path_arg args) _ h in hp ∙ ap ok (path_of ps hc)
