-- ===== src/Matter/Mdns/Answers/Tidy.antt =====
-- server/src/matter/mdns_browser.rs: what the packets of a browse add up to.
use rs_matter_server.Prelude.{
  ℕ, ◌+◌, ◌≡◌, refl, Bool, true, false, not, ◌||◌, some, List, [], ◌∷◌, ◌==◌, nat_ord, text_ord,
  ltb, length, if◌then◌else◌, All, arith, Option-cases, Bool-cases, inl, inr, if_either, is_some,
}
use rs_matter_server.Prelude.Text.{Text, eq_ignore_ascii_case}
use rs_matter_server.Prelude.Distinct.{has, IsDistinct, IsDistinct-push}
use rs_matter_server.Prelude.Map.{get, insert, IsSorted, insert-IsSorted, get-insert}
use rs_matter_server.Matter.Mdns.{Record, parse_records, record_data}
use rs_matter_server.Matter.Mdns.Answers.{
  IpAddr, ServiceInstance, Instances, Answers, fresh, entry_or, add_pointer, add_service, add_text,
  add_record, add_records, address_in, target_of, suffix, trim_dots, has_suffix, put_address,
  add_address, add_addresses, collect_answers, browsed, name_at,
}

-- Instances by their names, each once, and no address of an instance twice.
pub record IsTidy (instances : Instances) : Type 0 where
  pub sorted : IsSorted instances
  pub distinct : All (λ e. IsDistinct e.1.addresses) instances

All-insert :
    (name : Text) (i : ServiceInstance) (m : Instances)
    → IsDistinct i.addresses
    → All (λ e. IsDistinct e.1.addresses) m
    → All (λ e. IsDistinct e.1.addresses) (insert name i m)
unfolding insert
All-insert name i [] d h = (d, tt)
All-insert name i ((j, w) ∷ m) d (p, h) = ground (arith, All-insert name i m d h)

get-All :
    (name : Text) (i : ServiceInstance) (m : Instances)
    → All (λ e. IsDistinct e.1.addresses) m
    → get name m ≡ some i
    → IsDistinct i.addresses
unfolding get
get-All name i [] h e = cc
get-All name i ((j, w) ∷ m) (p, h) e = elim (Bool-cases (j == name)) [
  | inl k ↦ ground (arith, k)
  | inr k ↦ get-All name i m h (ground (arith, k))
]

insert-IsTidy :
    (name : Text) (i : ServiceInstance) (m : Instances)
    → IsDistinct i.addresses
    → IsTidy m
    → IsTidy (insert name i m)
insert-IsTidy name i m d t = record {
  sorted = insert-IsSorted name i m t.sorted;
  distinct = All-insert name i m d t.distinct;
}

entry_or-addresses :
    (suffix name : Text) (m : Instances) → IsTidy m → IsDistinct (entry_or suffix name m).addresses
unfolding entry_or fresh
entry_or-addresses suffix name m t = elim (Option-cases (get name m)) [
  | inl e ↦ rw e tt
  | inr (i, e) ↦ rw e (get-All name i m t.distinct e)
]

put_address-IsDistinct :
    (address : IpAddr) (i : ServiceInstance)
    → IsDistinct i.addresses
    → IsDistinct (put_address address i).addresses
unfolding put_address
put_address-IsDistinct address i d = elim (Bool-cases (has address i.addresses)) [
  | inl e ↦ rw e d
  | inr e ↦ rw e (IsDistinct-push address i.addresses e d)
]

-- Nothing that is known is lost.
abbrev pub Keeps : Instances → Instances → Type 0
Keeps m more = (name : Text) → is_some (get name m) ≡ true → is_some (get name more) ≡ true

insert-Keeps : (name : Text) (i : ServiceInstance) (m : Instances) → Keeps m (insert name i m)
insert-Keeps name i m other h = rw (get-insert name other i m) (either (name == other))
  where
    either : (b : Bool) → is_some (if b then some i else get other m) ≡ true
    either true = refl
    either false = h

pub record Grows (m more : Instances) : Type 0 where
  pub tidy : IsTidy more
  pub keeps : Keeps m more

Grows-refl : (m : Instances) → IsTidy m → Grows m m
Grows-refl m t = record { tidy = t; keeps = λ name h. h }

Grows-trans : {a b c : Instances} → Grows a b → Grows b c → Grows a c
Grows-trans g h = record { tidy = h.tidy; keeps = λ name k. h.keeps name (g.keeps name k) }

insert-Grows :
    (name : Text) (i : ServiceInstance) (m : Instances)
    → IsDistinct i.addresses
    → IsTidy m
    → Grows m (insert name i m)
insert-Grows name i m d t = record {
  tidy = insert-IsTidy name i m d t;
  keeps = insert-Keeps name i m;
}

abbrev GrowsFrom : Answers → Answers → Type 0
GrowsFrom a b = Grows a.instances b.instances

module _ (message : List ℕ) (service : Text) where
  add_pointer-Grows :
      (r : Record) (a : Answers)
      → IsTidy a.instances
      → Grows a.instances (add_pointer message service r a).instances
  unfolding add_pointer
  add_pointer-Grows r a t = elim (Bool-cases (eq_ignore_ascii_case r.name (trim_dots service))) [
    | inr e ↦ rw e (Grows-refl a.instances t)
    | inl e ↦ elim (Option-cases (name_at message service r.data_offset)) [
      | inl n ↦ rw (add_pointer, e, n) (Grows-refl a.instances t)
      | inr (target, n) ↦
          rw (add_pointer, e, n)
            (insert-Grows target _ a.instances
              (entry_or-addresses (suffix message service) target a.instances t) t)
    ]
  ]

  add_service-Grows :
      (r : Record) (a : Answers)
      → IsTidy a.instances
      → Grows a.instances (add_service message service r a).instances
  unfolding add_service
  add_service-Grows r a t =
      elim (Bool-cases (
        not (has_suffix r.name (suffix message service))
        || ltb (length (record_data r message)) 6)) [
          | inl e ↦ rw e (Grows-refl a.instances t)
          | inr e ↦ elim (Option-cases (name_at message service (r.data_offset + 6))) [
            | inl n ↦
                rw (add_service, e, n)
                  (insert-Grows r.name _ a.instances
                    (entry_or-addresses (suffix message service) r.name a.instances t) t)
            | inr (target, n) ↦
                rw (add_service, e, n)
                  (insert-Grows r.name _ a.instances
                    (entry_or-addresses (suffix message service) r.name a.instances t) t)
          ]
        ]

  add_text-Grows :
      (r : Record) (a : Answers)
      → IsTidy a.instances
      → Grows a.instances (add_text message service r a).instances
  unfolding add_text
  add_text-Grows r a t =
      if_either (GrowsFrom a) (has_suffix r.name (suffix message service)) _ _
        (λ e.
          insert-Grows r.name _ a.instances
            (entry_or-addresses (suffix message service) r.name a.instances t) t)
        (λ e. Grows-refl a.instances t)

  add_record-Grows :
      (r : Record) (a : Answers)
      → IsTidy a.instances
      → Grows a.instances (add_record message service r a).instances
  unfolding add_record
  add_record-Grows r a t =
      if_either (GrowsFrom a) (r.record_type == 12) _ _ (λ e. add_pointer-Grows r a t)
        (λ e.
          if_either (GrowsFrom a) (r.record_type == 33) _ _ (λ k. add_service-Grows r a t)
            (λ k.
              if_either (GrowsFrom a) (r.record_type == 16) _ _ (λ l. add_text-Grows r a t)
                (λ l. Grows-refl a.instances t)))

  add_records-Grows :
      (rs : List Record) (a : Answers)
      → IsTidy a.instances
      → Grows a.instances (add_records message service rs a).instances
  unfolding add_records
  add_records-Grows [] a t = Grows-refl a.instances t
  add_records-Grows (r ∷ rs) a t =
      let first = add_record-Grows r a t in
      Grows-trans first (add_records-Grows rs (add_record message service r a) first.tidy)

  add_address-Grows :
      (r : Record) (a : Answers)
      → IsTidy a.instances
      → Grows a.instances (add_address message service r a).instances
  unfolding add_address
  add_address-Grows r a t = elim (Option-cases (address_in message service r)) [
    | inl e ↦ rw (add_address, e) (Grows-refl a.instances t)
    | inr (address, e) ↦ elim (Option-cases (target_of message service r a)) [
      | inl k ↦ rw (add_address, e, k) (Grows-refl a.instances t)
      | inr (target, k) ↦ elim (Option-cases (get target a.instances)) [
        | inl l ↦ rw (add_address, e, k, l) (Grows-refl a.instances t)
        | inr (i, l) ↦
            rw (add_address, e, k, l)
              (insert-Grows target (put_address address i) a.instances
                (put_address-IsDistinct address i (get-All target i a.instances t.distinct l)) t)
      ]
    ]
  ]

  add_addresses-Grows :
      (rs : List Record) (a : Answers)
      → IsTidy a.instances
      → Grows a.instances (add_addresses message service rs a).instances
  unfolding add_addresses
  add_addresses-Grows [] a t = Grows-refl a.instances t
  add_addresses-Grows (r ∷ rs) a t =
      let first = add_address-Grows r a t in
      Grows-trans first (add_addresses-Grows rs (add_address message service r a) first.tidy)

  collect_answers-Grows : (m : Instances) → IsTidy m → Grows m (collect_answers message service m)
  unfolding collect_answers
  collect_answers-Grows m t = elim (Option-cases (parse_records message)) [
    | inl e ↦ rw (collect_answers, e) (Grows-refl m t)
    | inr (records, e) ↦
        rw (collect_answers, e)
          (let start : Answers = record { instances = m; host_to_instance = [] } in
            let first = add_records-Grows records start t in
            Grows-trans first
              (add_addresses-Grows records (add_records message service records start) first.tidy))
  ]

-- Whatever packets arrive, in whatever order: the instances stay sorted by their names, each name
-- once, no instance has an address twice, and none that was found is lost.
pub browsed-Grows :
    (service : Text) (messages : List (List ℕ)) (m : Instances)
    → IsTidy m
    → Grows m (browsed service messages m)
unfolding browsed
browsed-Grows service [] m t = Grows-refl m t
browsed-Grows service (message ∷ messages) m t =
    let first = collect_answers-Grows message service m t in
    Grows-trans first
      (browsed-Grows service messages (collect_answers message service m) first.tidy)
