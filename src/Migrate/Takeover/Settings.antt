-- ===== src/Migrate/Takeover/Settings.antt =====
-- server/src/migrate/mod.rs: the settings that are taken over, one after the other.
use rs_matter_server.Prelude.{
  ℕ, suc, ◌+◌, ◌^◌, ◌%◌, ◌≤◌, ◌<◌, ◌≡◌, refl, sym, ap, ◌∙◌, Bool, false, some, List, [], ◌∷◌,
  nat_ord, text_ord, arith, leb, leb→le, Bool-cases, Result-cases, inl, inr, All, Result, ok, err,
  Has,
}
use rs_matter_server.Prelude.Text.{Text}
use rs_matter_server.Storage.Config.{
  ConfigData, normalize_fabric_label, reserve_node_ids_above, set_wifi_credentials,
  set_thread_dataset,
}
use rs_matter_server.Storage.Config.Store.{
  ConfigStore, mutate, mutate_checked, set_fabric_label, reserve_above, Op, step, save_locked,
}
use rs_matter_server.Storage.Config.Store.Fresh.{
  IsBeyond, after_save-store, step-IsBeyond, saved-IsBeyond, answered,
}
use rs_matter_server.Migrate.Takeover.{
  Setting, fabric_label, reserved, wifi, thread, unit_of, apply_setting, then_settings,
  apply_settings,
}

-- No id that is reserved is the last one of 64 bits.
abbrev pub Fits : Setting → Type 0
Fits (reserved id) = id + 1 < 2 ^ 64
Fits setting = Unit {0}

unit_of-store : {T : Type 0} (r : Result Text T × ConfigStore) → (unit_of r).1 ≡ r.1
unit_of-store (ok t, store) = refl
unit_of-store (err e, store) = refl

setting-IsBeyond :
    (id : ℕ) (written : Bool) (s : Setting) (store : ConfigStore)
    → Fits s
    → IsBeyond id store
    → IsBeyond id (apply_setting written s store).1
unfolding apply_setting step
setting-IsBeyond id written (fabric_label l) store f h =
    rw (unit_of-store (set_fabric_label written l store))
      (step-IsBeyond id store (Op.label written l) tt h)
setting-IsBeyond id written (reserved n) store f h =
    step-IsBeyond id store (Op.reserves written n) (f, tt) h
setting-IsBeyond id written (wifi i ssid c) store f h =
    step-IsBeyond id store (Op.sets_wifi written (some i) ssid (some c)) tt h
setting-IsBeyond id written (thread i d) store f h =
    step-IsBeyond id store (Op.sets_thread written (some i) d) tt h

settings-IsBeyond :
    (id : ℕ) (written : ℕ → Bool) (n : ℕ) (ss : List Setting) (store : ConfigStore)
    → All Fits ss
    → IsBeyond id store
    → IsBeyond id (apply_settings written n ss store).1
unfolding apply_settings
settings-IsBeyond id written n [] store f h = h
settings-IsBeyond id written n (s ∷ ss) store (f, fs) h =
    goes_on (apply_setting (written n) s store) (setting-IsBeyond id (written n) s store f h)
      (λ st b. settings-IsBeyond id written (suc n) ss st fs b)
  where
    goes_on :
        (r : Result Text (Unit {0}) × ConfigStore)
        → IsBeyond id r.1
        → ((st : ConfigStore)
            → IsBeyond id st
            → IsBeyond id (apply_settings written (suc n) ss st).1)
        → IsBeyond id (then_settings r (apply_settings written (suc n) ss)).1
    goes_on (ok u, st) b k = k st b
    goes_on (err e, st) b k = b

above : (id n : ℕ) → id + 1 < 2 ^ 64 → n ≤ id → id < (id + 1) % 2 ^ 64
above id n room l = omega arith

reserves :
    (id : ℕ) (config : ConfigData)
    → id + 1 < 2 ^ 64
    → id < (reserve_node_ids_above id config).next_node_id
unfolding reserve_node_ids_above
reserves id config room = elim (Bool-cases (leb config.next_node_id id)) [
  | inl e ↦ rw e (above id config.next_node_id room (leb→le config.next_node_id id e))
  | inr e ↦ rw e (beyond config.next_node_id id e)
]
  where
    beyond : (a b : ℕ) → leb a b ≡ false → b < a
    beyond a b e = ground arith

reserved-IsBeyond :
    (id : ℕ) (written : Bool) (store : ConfigStore)
    → id + 1 < 2 ^ 64
    → (reserve_above written id store).0 ≡ ok tt
    → IsBeyond id (reserve_above written id store).1
unfolding reserve_above mutate
reserved-IsBeyond id written store room h =
    let (e, s) =
      answered written (reserve_node_ids_above id store.config) store.path store.file tt tt h in
    saved-IsBeyond id (reserve_node_ids_above id store.config) _ s (reserves id store.config room)

not_reserved :
    (id : ℕ) (s : Setting)
    → reserved id ≡ s
    → (written : Bool) (store : ConfigStore) → id + 1 < 2 ^ 64
    → (apply_setting written s store).0 ≡ ok tt
    → IsBeyond id (apply_setting written s store).1
unfolding apply_setting
not_reserved id (reserved n) e written store room h =
    let same : id ≡ n = ap number_of e in
    rw same (reserved-IsBeyond n written store (rw same at room) h)
  where
    number_of : Setting → ℕ
    number_of (reserved k) = k
    number_of _ = 0
not_reserved id (fabric_label l) e written store room h = cc
not_reserved id (wifi i ssid c) e written store room h = cc
not_reserved id (thread i d) e written store room h = cc

pub settings_reserve :
    (id : ℕ) (written : ℕ → Bool) (n : ℕ) (ss : List Setting) (store : ConfigStore)
    → id + 1 < 2 ^ 64
    → All Fits ss
    → Has (reserved id) ss
    → (apply_settings written n ss store).0 ≡ ok tt
    → IsBeyond id (apply_settings written n ss store).1
unfolding apply_settings
settings_reserve id written n [] store room f there h = elim there [ ]
settings_reserve id written n (s ∷ ss) store room (f, fs) there h =
    splits (apply_setting (written n) s store) h there
      (λ e k. not_reserved id s e (written n) store room k)
      (λ st b. settings-IsBeyond id written (suc n) ss st fs b)
      (λ st t k. settings_reserve id written (suc n) ss st room fs t k)
  where
    splits :
        (r : Result Text (Unit {0}) × ConfigStore)
        → (then_settings r (apply_settings written (suc n) ss)).0 ≡ ok tt
        → Has (reserved id) (s ∷ ss)
        → (reserved id ≡ s → r.0 ≡ ok tt → IsBeyond id r.1)
        → ((st : ConfigStore)
            → IsBeyond id st
            → IsBeyond id (apply_settings written (suc n) ss st).1)
        → ((st : ConfigStore)
            → Has (reserved id) ss
            → (apply_settings written (suc n) ss st).0 ≡ ok tt
            → IsBeyond id (apply_settings written (suc n) ss st).1)
        → IsBeyond id (then_settings r (apply_settings written (suc n) ss)).1
    splits (err e, st) k t a b c = cc
    splits (ok u, st) k (inl e) a b c = b st (a (sym e) refl)
    splits (ok u, st) k (inr t) a b c = c st t k

save_locked-path : (w : Bool) (store : ConfigStore) → (save_locked w store).1.path ≡ store.path
unfolding save_locked
save_locked-path w store = ground arith

mutate-path :
    {T : Type 0} (w : Bool) (f : ConfigData → ConfigData × T) (store : ConfigStore)
    → (mutate w f store).1.path ≡ store.path
unfolding mutate
mutate-path w f store =
    ap (λ s. s.path)
      (after_save-store (f store.config).1
        (save_locked w (record store { config = (f store.config).0 })))
    ∙ save_locked-path w (record store { config = (f store.config).0 })

mutate_checked-path :
    (w : Bool) (f : ConfigData → Result Text ConfigData) (store : ConfigStore)
    → (mutate_checked w f store).1.path ≡ store.path
unfolding mutate_checked
mutate_checked-path w f store = elim (Result-cases (f store.config)) [
  | inl (c, e) ↦ rw (mutate_checked, e) (save_locked-path w (record store { config = c }))
  | inr (m, e) ↦ rw (mutate_checked, e) refl
]

setting-path :
    (w : Bool) (s : Setting) (store : ConfigStore) → (apply_setting w s store).1.path ≡ store.path
unfolding apply_setting set_fabric_label reserve_above
setting-path w (fabric_label l) store =
    ap (λ s. s.path) (unit_of-store (set_fabric_label w l store))
    ∙ mutate-path w
        (λ config. (
          record config { fabric_label = normalize_fabric_label (some l) },
          normalize_fabric_label (some l),
        ))
        store
setting-path w (reserved n) store =
    mutate-path w (λ config. (reserve_node_ids_above n config, tt {0})) store
setting-path w (wifi i ssid c) store =
    mutate_checked-path w (set_wifi_credentials (some i) ssid (some c)) store
setting-path w (thread i d) store = mutate_checked-path w (set_thread_dataset (some i) d) store

pub settings-path :
    (written : ℕ → Bool) (n : ℕ) (ss : List Setting) (store : ConfigStore)
    → (apply_settings written n ss store).1.path ≡ store.path
unfolding apply_settings
settings-path written n [] store = refl
settings-path written n (s ∷ ss) store =
    goes_on (apply_setting (written n) s store) (λ st. settings-path written (suc n) ss st)
    ∙ setting-path (written n) s store
  where
    goes_on :
        (r : Result Text (Unit {0}) × ConfigStore)
        → ((st : ConfigStore) → (apply_settings written (suc n) ss st).1.path ≡ st.path)
        → (then_settings r (apply_settings written (suc n) ss)).1.path ≡ r.1.path
    goes_on (ok u, st) k = k st
    goes_on (err e, st) k = refl
