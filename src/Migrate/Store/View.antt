-- ===== src/Migrate/Store/View.antt =====
-- server/src/migrate/store.rs: what a commit means for the keys of every context, and that applying
-- it to the maps does that.
use rs_matter_server.Prelude.{
  and_then, or_else, ◌≡◌, refl, ◌∙◌, ap, Bool, true, false, not, ◌&&◌, ◌||◌, Option, none, some,
  List, [], ◌∷◌, ◌++◌, ◌==◌, ==_iff, nat_ord, text_ord, any, length, if◌then◌else◌, unwrap_or, map,
  arith, Bool-cases, Option-cases, inl, inr,
}
use mathlib.Core.Path.{fun_ext}
use rs_matter_server.Prelude.Text.{Text, text}
use rs_matter_server.Prelude.Text.Affix.{starts_with}
use rs_matter_server.Prelude.Map.{Map, get, insert, remove, retain, get-insert, get-remove}
use rs_matter_server.Protocol.Json
use rs_matter_server.Protocol.Json.{Numbers, Value, as_str, as_array}
use rs_matter_server.Migrate.Value.{Formats, MjValue, from_json}
use rs_matter_server.Migrate.Store.{
  Contexts, as_object, names_of, operations, op_key, remove_each, delete_names, delete_tree,
  put_values, update_context, apply_update, apply_delete, apply_op, apply_ops, apply_commit,
}

-- What an operation does, in words of contexts and keys.
pub data Op (N : Type 0) : Type 0 where
  sets : Text → List (Text × Value N) → Op N
  unsets : Text → List Text → Op N
  drops : Text → Op N
  nothing : Op N

-- The value of each key in each context.
abbrev pub View : Type 0 → Type 0
View F = Text → Text → Option (MjValue F)

module _ {F : Type 0} where
  abbrev pub view : Contexts F → View F
  view contexts path key = and_then (get path contexts) (λ context. get key context)

abbrev pub is_under : Text → Text → Bool
is_under path key = length key == 0 || (key == path || starts_with path (key ++ (b'.' ∷ [])))

module _ {N F : Type 0} ⦃num : Numbers N⦄ (fmt : Formats N F) where
  -- The last value that a list gives a name.
  pub last_value : Text → List (Text × Value N) → Option (MjValue F)
  last_value key [] = none
  last_value key ((name, value) ∷ more) =
      or_else (last_value key more) (if name == key then some (from_json fmt value) else none)

  pub act : Op N → View F → View F
  act (sets context values) v path key =
      if context == path then or_else (last_value key values) (v path key) else v path key
  act (unsets context names) v path key =
      if context == path && any (λ name. name == key) names then none else v path key
  act (drops context) v path key = if is_under path context then none else v path key
  act nothing v path key = v path key

  unfoldable pub acts : List (Op N) → View F → View F
  acts [] v = v
  acts (op ∷ ops) v = acts ops (act op v)

  get-put_values :
      (key : Text) (values : List (Text × Value N)) (context : Map Text (MjValue F))
      → get key (put_values fmt values context) ≡ or_else (last_value key values) (get key context)
  unfolding put_values last_value
  get-put_values key [] context = refl
  get-put_values key ((name, value) ∷ more) context =
      rw (get-put_values key more (insert name (from_json fmt value) context)) (
        rw (get-insert name key (from_json fmt value) context)
          (elim (Option-cases (last_value key more)) [
            | inl e ↦ rw e (if_or (name == key) (from_json fmt value) (get key context))
            | inr (v, e) ↦ rw e refl
          ]))
    where
      if_or :
          (b : Bool) (v : MjValue F) (o : Option (MjValue F))
          → (if b then some v else o) ≡ or_else (if b then some v else none) o
      if_or true v o = refl
      if_or false v o = refl

  sets-view :
      (context : Text) (values : List (Text × Value N)) (contexts : Contexts F) (path key : Text)
      → view (update_context fmt context values contexts) path key
        ≡ act (sets context values) (view contexts) path key
  unfolding update_context act get
  sets-view context values contexts path key =
      rw
        (get-insert context path (put_values fmt values (unwrap_or (get context contexts) []))
          contexts)
        (elim (Bool-cases (context == path)) [
          | inr e ↦ rw e refl
          | inl e ↦ rw e (
              rw
                (
                  get-put_values key values (unwrap_or (get context contexts) []),
                  (==_iff context path).0 e,
                )
                (elim (Option-cases (get path contexts)) [
                  | inl n ↦ rw n refl
                  | inr (c, n) ↦ rw n refl
                ]))
        ])

  get-remove_each :
      (key : Text) (names : List Text) (context : Map Text (MjValue F))
      → get key (remove_each names context)
        ≡ (if any (λ name. name == key) names then none else get key context)
  unfolding remove_each
  get-remove_each key [] context = refl
  get-remove_each key (name ∷ names) context =
      rw (get-remove_each key names (remove name context), get-remove name key context)
        (both (any (λ n. n == key) names) (name == key) (get key context))
    where
      both :
          (a b : Bool) (o : Option (MjValue F))
          → (if a then none else if b then none else o) ≡ (if b || a then none else o)
      both true true o = refl
      both true false o = refl
      both false true o = refl
      both false false o = refl

  unsets-view :
      (context : Text) (names : List Text) (contexts : Contexts F) (path key : Text)
      → view (delete_names context names contexts) path key
        ≡ act (unsets context names) (view contexts) path key
  unfolding delete_names act
  unsets-view context names contexts path key = elim (Option-cases (get context contexts)) [
    | inl n ↦
        rw (delete_names, n)
          (elim (Bool-cases (context == path)) [
            | inr e ↦ rw e refl
            | inl e ↦
                rw (e, ← (==_iff context path).0 e, n) (absent (any (λ name. name == key) names))
          ])
    | inr (c, n) ↦
        rw (delete_names, n)
          (rw (get-insert context path (remove_each names c) contexts)
            (elim (Bool-cases (context == path)) [
              | inr e ↦ rw e refl
              | inl e ↦ rw (e, ← (==_iff context path).0 e, n, get-remove_each key names c) refl
            ]))
  ]
    where
      absent : (b : Bool) → ◌≡◌ {A = Option (MjValue F)} none (if b then none else none)
      absent true = refl
      absent false = refl

  get-retain_key :
      (p : Text → Bool) (path : Text) (contexts : Contexts F)
      → get path (retain (λ k _. p k) contexts) ≡ (if p path then get path contexts else none)
  unfolding retain get
  get-retain_key p path [] = ground arith
  get-retain_key p path ((k, c) ∷ contexts) =
      ground (arith, get-retain_key p path contexts, ==_iff k path)

  drops-view :
      (context : Text) (contexts : Contexts F) (path key : Text)
      → view (delete_tree context contexts) path key ≡ act (drops context) (view contexts) path key
  unfolding delete_tree act get
  drops-view context contexts path key = elim (Bool-cases (length context == 0)) [
    | inl e ↦ rw e refl
    | inr e ↦
        rw
          (
            e,
            get-retain_key (λ k. not (starts_with k (context ++ (b'.' ∷ [])))) path
                (remove context contexts),
            get-remove context path contexts,
          )
          (both (context == path) (starts_with path (context ++ (b'.' ∷ []))) (get path contexts))
  ]
    where
      both :
          (a b : Bool) (o : Option (Map Text (MjValue F)))
          → and_then (if not b then (if a then none else o) else none) (λ c. get key c)
            ≡ (if a || b then none else and_then o (λ c. get key c))
      both true true o = refl
      both true false o = refl
      both false true o = refl
      both false false o = refl

  -- What the JSON of an operation says.
  unfoldable pub meaning : Value N → Op N
  meaning op = elim (and_then (Json.get (text "op") op) as_str) [
    | none ↦ nothing
    | some kind ↦
        if kind == text "upd"
        then elim (and_then (Json.get (text "values") op) as_object) [
          | none ↦ nothing
          | some values ↦ sets (op_key fmt op) values
        ]
        else if kind == text "del"
        then elim (and_then (Json.get (text "values") op) as_array) [
          | none ↦ drops (op_key fmt op)
          | some names ↦ unsets (op_key fmt op) (names_of names)
        ]
        else nothing
  ]

  apply_op-view :
      (op : Value N) (contexts : Contexts F) (path key : Text)
      → view (apply_op fmt op contexts) path key ≡ act (meaning op) (view contexts) path key
  unfolding apply_op apply_update apply_delete meaning act get
  apply_op-view op contexts path key =
      elim (Option-cases (and_then (Json.get (text "op") op) as_str)) [
        | inl n ↦ rw (apply_op, meaning, n) refl
        | inr (kind, n) ↦
            rw (apply_op, meaning, n)
              (elim (Bool-cases (kind == text "upd")) [
                | inl u ↦
                    rw u (elim (Option-cases (and_then (Json.get (text "values") op) as_object)) [
                      | inl m ↦ rw (apply_update, m) refl
                      | inr (values, m) ↦
                          rw (apply_update, m) (sets-view (op_key fmt op) values contexts path key)
                    ])
                | inr u ↦ rw u (elim (Bool-cases (kind == text "del")) [
                  | inr d ↦ rw d refl
                  | inl d ↦
                      rw d (elim (Option-cases (and_then (Json.get (text "values") op) as_array)) [
                        | inl m ↦
                            rw (apply_delete, m) (drops-view (op_key fmt op) contexts path key)
                        | inr (names, m) ↦
                            rw (apply_delete, m)
                              (unsets-view (op_key fmt op) (names_of names) contexts path key)
                      ])
                ])
              ])
      ]

  pub acts-append :
      (ops more : List (Op N)) (v : View F) → acts (ops ++ more) v ≡ acts more (acts ops v)
  unfolding acts
  acts-append [] more v = refl
  acts-append (op ∷ ops) more v = acts-append ops more (act op v)

  apply_ops-view :
      (ops : List (Value N)) (contexts : Contexts F)
      → view (apply_ops fmt ops contexts) ≡ acts (map meaning ops) (view contexts)
  unfolding apply_ops acts
  apply_ops-view [] contexts = refl
  apply_ops-view (op ∷ ops) contexts =
      apply_ops-view ops (apply_op fmt op contexts)
      ∙ ap (acts (map meaning ops))
          (fun_ext (λ path. fun_ext (λ key. apply_op-view op contexts path key)))

  -- The operations of a line; none where it is no JSON.
  unfoldable pub line_ops : Text → List (Op N)
  line_ops line = elim (and_then (fmt.parse_json line) operations) [
    | none ↦ []
    | some ops ↦ map meaning ops
  ]

  pub apply_commit-view :
      (line : Text) (contexts : Contexts F)
      → view (apply_commit fmt line contexts) ≡ acts (line_ops line) (view contexts)
  unfolding apply_commit line_ops acts
  apply_commit-view line contexts =
      elim (Option-cases (and_then (fmt.parse_json line) operations)) [
        | inl n ↦ rw (apply_commit, line_ops, n) refl
        | inr (ops, n) ↦ rw (apply_commit, line_ops, n) (apply_ops-view ops contexts)
      ]
