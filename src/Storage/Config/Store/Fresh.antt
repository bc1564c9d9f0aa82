-- ===== src/Storage/Config/Store/Fresh.antt =====
-- server/src/storage/config.rs: a node id that was handed out is not handed out again, whatever is
-- done to the store afterwards and however often the server restarts.
use Prim.Native.Nat.{max}
use rs_matter_server.Prelude.{
  ℕ, ◌+◌, ◌≤◌, ◌<◌, ◌^◌, ◌%◌, ◌≡◌, ◌⊎◌, inl, inr, refl, sym, Bool, true, false, Option, none, some,
  List, [], ◌∷◌, nat_ord, arith, Result, Result-cases, ok, err, >>=-eq-ok, if_either, leb, leb→le,
  ap, map, ◌==◌, text_ord, unwrap_or,
}
use rs_matter_server.Prelude.Text.{Text}
use rs_matter_server.Storage.Config.{
  ConfigData, normalize_fabric_label, allocate_node_id, reserve_node_ids_above,
  set_wifi_credentials, remove_wifi_credentials, set_thread_dataset, remove_thread_dataset,
  set_default_wifi, set_additional_wifi, validate_credential_id, default_credential_id, same_id,
  assert_no_case_clash,
}
use rs_matter_server.Storage.Config.Ids.{ok_inj, no_result}
use rs_matter_server.Storage.Config.Credentials.{
  set_default_wifi-wifi_credentials, set_additional_wifi-wifi_credentials,
}
use rs_matter_server.Storage.Config.Store.{
  ConfigStore, File, missing, malformed, saved, save_locked, after_save, mutate, mutate_checked,
  load, allocate, set_fabric_label, reserve_above, Op, label, allocates, reserves, sets_wifi,
  removes_wifi, sets_thread, removes_thread, restarts, restarted, step, run,
}

-- The counter is above `id`, in memory and, where there is a file, in the file.
abbrev pub IsBeyond : ℕ → ConfigStore → Type 0
IsBeyond id store =
    (id < store.config.next_node_id)
    × ((store.path ≡ none)
        ⊎ (config : ConfigData) × (store.file ≡ saved config) × (id < config.next_node_id))

-- The counter does not wrap around: none of these reaches the last id of 64 bits.
abbrev pub HasRoom : ConfigStore → List Op → Type 0
HasRoom store [] = Unit
HasRoom store (allocates w ∷ ops) =
    (max store.config.next_node_id 1 + 1 < 2 ^ 64) × HasRoom (step store (allocates w)) ops
HasRoom store (reserves w highest ∷ ops) =
    (highest + 1 < 2 ^ 64) × HasRoom (step store (reserves w highest)) ops
HasRoom store (op ∷ ops) = HasRoom (step store op) ops

save_locked-IsBeyond :
    (id : ℕ) (w : Bool) (config : ConfigData) (path : Option Text) (file : File)
    → id < config.next_node_id
    → (path ≡ none)
      ⊎ (saved_config : ConfigData) × (file ≡ saved saved_config) × (id < saved_config.next_node_id)
    → IsBeyond id (save_locked w (record { config = config; path = path; file = file })).1
unfolding save_locked
save_locked-IsBeyond id w config none file l h = (l, inl refl)
save_locked-IsBeyond id true config (some p) file l h = (l, inr (config, refl, l))
save_locked-IsBeyond id false config (some p) file l h = (l, h)

pub after_save-store :
    {T : Type 0} (out : T) (r : Result Text Unit × ConfigStore) → (after_save out r).1 ≡ r.1
unfolding after_save
after_save-store out (ok u, s) = refl
after_save-store out (err e, s) = refl

mutate-IsBeyond :
    {T : Type 0} (id : ℕ) (w : Bool) (f : ConfigData → ConfigData × T) (store : ConfigStore)
    → id < (f store.config).0.next_node_id
    → IsBeyond id store
    → IsBeyond id (mutate w f store).1
unfolding mutate
mutate-IsBeyond id w f store l (m, h) =
    rw
      (after_save-store (f store.config).1
        (save_locked w (record store { config = (f store.config).0 })))
      (save_locked-IsBeyond id w (f store.config).0 store.path store.file l h)

mutate_checked-IsBeyond :
    (id : ℕ) (w : Bool) (f : ConfigData → Result Text ConfigData) (store : ConfigStore)
    → ((config : ConfigData)
        → f store.config ≡ ok config
        → config.next_node_id ≡ store.config.next_node_id)
    → IsBeyond id store
    → IsBeyond id (mutate_checked w f store).1
unfolding mutate_checked
mutate_checked-IsBeyond id w f store keeps (m, h) = elim (Result-cases (f store.config)) [
  | inl (c, e) ↦
      rw (mutate_checked, e)
        (save_locked-IsBeyond id w c store.path store.file (rw (keeps c e) m) h)
  | inr (x, e) ↦ rw (mutate_checked, e) (m, h)
]

saved_inj : {c d : ConfigData} → saved c ≡ saved d → c ≡ d
saved_inj e = cc

restarted-IsBeyond :
    (id : ℕ) (config : ConfigData) (path : Option Text) (file : File)
    → IsBeyond id (record { config = config; path = path; file = file })
    → IsBeyond id (restarted (record { config = config; path = path; file = file }))
unfolding restarted load
restarted-IsBeyond id config none file h = h
restarted-IsBeyond id config (some p) file (m, inl e) = cc
restarted-IsBeyond id config (some p) missing (m, inr (c, e, l)) = cc
restarted-IsBeyond id config (some p) malformed (m, inr (c, e, l)) = (m, inr (c, e, l))
restarted-IsBeyond id config (some p) (saved d) (m, inr (c, e, l)) =
    let l' : id < d.next_node_id = rw (saved_inj e) l in (l', inr (d, refl, l'))

counter_kept : {c d : ConfigData} → c ≡ d → c.next_node_id ≡ d.next_node_id
counter_kept e = ap (λ c. c.next_node_id) e

wifi_keeps_counter :
    (id : Option Text) (ssid : Text) (credentials : Option Text) (config config' : ConfigData)
    → set_wifi_credentials id ssid credentials config ≡ ok config'
    → config'.next_node_id ≡ config.next_node_id
unfolding set_wifi_credentials
wifi_keeps_counter id ssid credentials config config' h =
    let (canonical, v, w) =
      >>=-eq-ok (validate_credential_id (unwrap_or id default_credential_id)) _ h in
    if_either (λ r. r ≡ ok config' → config'.next_node_id ≡ config.next_node_id)
      (canonical == default_credential_id) (set_default_wifi config ssid credentials)
      (set_additional_wifi config canonical ssid credentials)
      (λ d e. counter_kept (set_default_wifi-wifi_credentials config config' ssid credentials e).2)
      (λ d e.
        counter_kept
          (set_additional_wifi-wifi_credentials config config' canonical ssid credentials e).2)
      w

thread_keeps_counter :
    (id : Option Text) (dataset : Text) (config config' : ConfigData)
    → set_thread_dataset id dataset config ≡ ok config'
    → config'.next_node_id ≡ config.next_node_id
unfolding set_thread_dataset
thread_keeps_counter id dataset config config' h =
    let (canonical, v, w) =
      >>=-eq-ok (validate_credential_id (unwrap_or id default_credential_id)) _ h in
    if_either (λ r. r ≡ ok config' → config'.next_node_id ≡ config.next_node_id)
      (canonical == default_credential_id) _ _ (λ d e. counter_kept (sym (ok_inj e)))
      (λ d e.
        let (u, g, k) =
          >>=-eq-ok (assert_no_case_clash canonical (map (λ e. e.id) config.additional_thread)) _
            e in
        counter_kept (sym (ok_inj k)))
      w

allocate_raises : (id n : ℕ) → id < n → max n 1 + 1 < 2 ^ 64 → id < (max n 1 + 1) % 2 ^ 64
allocate_raises id n l room = omega arith

reserve_raises :
    (id highest : ℕ) (config : ConfigData)
    → id < config.next_node_id
    → highest + 1 < 2 ^ 64
    → id < (reserve_node_ids_above highest config).next_node_id
unfolding reserve_node_ids_above
reserve_raises id highest config l room =
    if_either {A = ConfigData} (λ c. id < c.next_node_id) (leb config.next_node_id highest) _ _
      (λ e. below id config.next_node_id highest l room (leb→le config.next_node_id highest e))
      (λ e. l)
  where
    below : (id n h : ℕ) → id < n → h + 1 < 2 ^ 64 → n ≤ h → id < (h + 1) % 2 ^ 64
    below id n h l room le = omega arith

wifi_removal_keeps :
    (i : Option Text) (id : ℕ) (config : ConfigData)
    → id < config.next_node_id
    → id < (remove_wifi_credentials i config).next_node_id
unfolding remove_wifi_credentials
wifi_removal_keeps i id config l =
    if_either {A = ConfigData} (λ c. id < c.next_node_id)
      (same_id (unwrap_or i default_credential_id) default_credential_id) _ _ (λ e. l) (λ e. l)

thread_removal_keeps :
    (i : Option Text) (id : ℕ) (config : ConfigData)
    → id < config.next_node_id
    → id < (remove_thread_dataset i config).next_node_id
unfolding remove_thread_dataset
thread_removal_keeps i id config l =
    if_either {A = ConfigData} (λ c. id < c.next_node_id)
      (same_id (unwrap_or i default_credential_id) default_credential_id) _ _ (λ e. l) (λ e. l)

pub step-IsBeyond :
    (id : ℕ) (store : ConfigStore) (op : Op)
    → HasRoom store (op ∷ [])
    → IsBeyond id store
    → IsBeyond id (step store op)
unfolding step set_fabric_label allocate reserve_above allocate_node_id reserve_node_ids_above
    remove_wifi_credentials remove_thread_dataset
step-IsBeyond id store (label w l) room h =
    let normalized : Text = normalize_fabric_label (some l) in
    mutate-IsBeyond id w (λ config. (record config { fabric_label = normalized }, normalized)) store
      h.0 h
step-IsBeyond id store (allocates w) room h =
    mutate-IsBeyond id w allocate_node_id store
      (allocate_raises id store.config.next_node_id h.0 room.0) h
step-IsBeyond id store (reserves w highest) room h =
    mutate-IsBeyond id w (λ config. (reserve_node_ids_above highest config, tt)) store
      (reserve_raises id highest store.config h.0 room.0) h
step-IsBeyond id store (sets_wifi w i ssid credentials) room h =
    mutate_checked-IsBeyond id w (set_wifi_credentials i ssid credentials) store
      (wifi_keeps_counter i ssid credentials store.config) h
step-IsBeyond id store (removes_wifi w i) room h =
    mutate-IsBeyond id w (λ config. (remove_wifi_credentials i config, tt)) store
      (wifi_removal_keeps i id store.config h.0) h
step-IsBeyond id store (sets_thread w i dataset) room h =
    mutate_checked-IsBeyond id w (set_thread_dataset i dataset) store
      (thread_keeps_counter i dataset store.config) h
step-IsBeyond id store (removes_thread w i) room h =
    mutate-IsBeyond id w (λ config. (remove_thread_dataset i config, tt)) store
      (thread_removal_keeps i id store.config h.0) h
step-IsBeyond id store restarts room h = restarted-IsBeyond id store.config store.path store.file h

HasRoom-first :
    (store : ConfigStore) (op : Op) (ops : List Op)
    → HasRoom store (op ∷ ops)
    → HasRoom store (op ∷ [])
HasRoom-first store (label w l) ops h = tt
HasRoom-first store (allocates w) ops h = (h.0, tt)
HasRoom-first store (reserves w highest) ops h = (h.0, tt)
HasRoom-first store (sets_wifi w i ssid credentials) ops h = tt
HasRoom-first store (removes_wifi w i) ops h = tt
HasRoom-first store (sets_thread w i dataset) ops h = tt
HasRoom-first store (removes_thread w i) ops h = tt
HasRoom-first store restarts ops h = tt

HasRoom-rest :
    (store : ConfigStore) (op : Op) (ops : List Op)
    → HasRoom store (op ∷ ops)
    → HasRoom (step store op) ops
HasRoom-rest store (label w l) ops h = h
HasRoom-rest store (allocates w) ops h = h.1
HasRoom-rest store (reserves w highest) ops h = h.1
HasRoom-rest store (sets_wifi w i ssid credentials) ops h = h
HasRoom-rest store (removes_wifi w i) ops h = h
HasRoom-rest store (sets_thread w i dataset) ops h = h
HasRoom-rest store (removes_thread w i) ops h = h
HasRoom-rest store restarts ops h = h

pub run-IsBeyond :
    (id : ℕ) (store : ConfigStore) (ops : List Op)
    → HasRoom store ops
    → IsBeyond id store
    → IsBeyond id (run store ops)
unfolding run
run-IsBeyond id store [] room h = h
run-IsBeyond id store (op ∷ ops) room h =
    run-IsBeyond id (step store op) ops (HasRoom-rest store op ops room)
      (step-IsBeyond id store op (HasRoom-first store op ops room) h)

abbrev pub IsSaved : ConfigData → ConfigStore → Type 0
IsSaved config store = (store.config ≡ config) × ((store.path ≡ none) ⊎ (store.file ≡ saved config))

pub saved-IsBeyond :
    (id : ℕ) (config : ConfigData) (store : ConfigStore)
    → IsSaved config store
    → id < config.next_node_id
    → IsBeyond id store
saved-IsBeyond id config store (e, inl p) l = (rw e l, inl p)
saved-IsBeyond id config store (e, inr f) l = (rw e l, inr (config, f, l))

-- What is known where a change was answered.
pub answered :
    {T : Type 0} (w : Bool) (config : ConfigData) (path : Option Text) (file : File)
    (out answer : T)
    → (after_save out (save_locked w (record { config = config; path = path; file = file }))).0
      ≡ ok answer
    → (out ≡ answer)
      × IsSaved config
          (after_save out (save_locked w (record { config = config; path = path; file = file }))).1
unfolding after_save save_locked
answered w config none file out answer h = (ok_inj h, (refl, inl refl))
answered true config (some p) file out answer h = (ok_inj h, (refl, inr refl))
answered false config (some p) file out answer h = no_result h
