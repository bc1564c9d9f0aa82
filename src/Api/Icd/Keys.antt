-- ===== src/Api/Icd/Keys.antt =====
-- server/src/api/icd.rs: which keys are kept after the commands, and whose administrators stand in the way.
use rs_matter_server.Prelude.{
  ℕ, ◌≡◌, refl, ◌∙◌, ap, Bool, true, false, not, List, [], ◌==◌, nat_ord, text_ord, keep,
  if◌then◌else◌, unwrap_or, arith, ok, err,
}
use rs_matter_server.Prelude.Text.{text}
use rs_matter_server.Protocol.Json.{Numbers}
use rs_matter_server.Protocol.Message.{Args, bool_or, u64_array}
use rs_matter_server.Protocol.Error.{Api, ApiError}
use rs_matter_server.Storage.Config.{ConfigData}
use rs_matter_server.Storage.Config.Store.{ConfigStore, mutate, after_save, save_locked}
use rs_matter_server.Storage.Config.Registrations.{
  Base64, remove_icd_registration, icd_registrations, remove_icd_registration-icd_registrations,
}
use rs_matter_server.Api.Context.{
  FabricInfo, unregisters, ServerContext, fabric_info, and_call, require_node,
}
use rs_matter_server.Api.Icd.{
  Meeting, read_icd_state, check_admins, other_vendor_admins, drop_key, register_icd,
  unregister_icd, send, forgotten,
}

-- A handler's step that leaves the configuration alone.
module _ {N A : Type 0} where
  abbrev Leaves : ServerContext N → Api A × ServerContext N → Type 0
  Leaves c r = r.1.config ≡ c.config

module _ {N : Type 0} where
  fabric_info-Leaves :
      (answer : Api FabricInfo) (c : ServerContext N) → Leaves c (fabric_info answer c)
  unfolding fabric_info
  fabric_info-Leaves answer c = ground arith

-- What a write that succeeds or fails leaves in memory.
mutate-config :
    (written : Bool) (f : ConfigData → ConfigData) (store : ConfigStore)
    → (mutate written (λ config. (f config, tt {0})) store).1.config ≡ f store.config
unfolding mutate after_save save_locked
mutate-config written f store = ground arith

module _ {N : Type 0} ⦃num : Numbers N⦄ where
  read_icd_state-Leaves :
      (m : Meeting N) (node_id : ℕ) (c : ServerContext N) → Leaves c (read_icd_state m node_id c)
  unfolding read_icd_state
  read_icd_state-Leaves m node_id c = ground (arith, fabric_info-Leaves m.fabric_for_state c)

  and_call-Leaves :
      {A B : Type 0} (c : ServerContext N) (r : Api A × ServerContext N)
      (next : A → ServerContext N → Api B × ServerContext N)
      → Leaves c r
      → ((a : A) (c : ServerContext N) → Leaves c (next a c))
      → Leaves c (and_call r next)
  and_call-Leaves c (err e, c') next h k = h
  and_call-Leaves c (ok a, c') next h k = k a c' ∙ h

  other_vendor_admins-Leaves :
      (ignored : List ℕ) (m : Meeting N) (c : ServerContext N)
      → Leaves c (other_vendor_admins ignored m c)
  unfolding other_vendor_admins
  other_vendor_admins-Leaves ignored m c =
      and_call-Leaves c (fabric_info m.fabric_for_admins c) _
        (fabric_info-Leaves m.fabric_for_admins c)
        (λ fabric c'. and_call-Leaves c' (m.fabric_attributes, c') _ refl (λ attributes c''. refl))

  check_admins-Leaves :
      (allow : Bool) (ignored : List ℕ) (m : Meeting N) (c : ServerContext N)
      → Leaves c (check_admins allow ignored m c)
  unfolding check_admins
  check_admins-Leaves true ignored m c = refl
  check_admins-Leaves false ignored m c =
      and_call-Leaves c (other_vendor_admins ignored m c) _ (other_vendor_admins-Leaves ignored m c)
        (λ others c'. refl)

  drop_key-config :
      (m : Meeting N) (node_id : ℕ) (c : ServerContext N)
      → (drop_key m node_id c).config.config ≡ remove_icd_registration node_id c.config.config
  unfolding drop_key
  drop_key-config m node_id c = mutate-config m.written (remove_icd_registration node_id) c.config

  module _ ⦃base64 : Base64⦄ where
    -- A device that refuses the registration leaves the configuration as it was, in memory and on disk.
    pub refused_key_is_not_stored :
        (args : Args N) (m : Meeting N) (c : ServerContext N) (e : ApiError)
        → m.invoked ≡ err e
        → (register_icd args m c).1.config ≡ c.config
    unfolding register_icd
    refused_key_is_not_stored args m c e h =
        and_call-Leaves c (require_node args c, c) _ refl
          (λ node_id c1.
            and_call-Leaves c1 (bool_or (text "allow_multi_admin") false args, c1) _ refl
              (λ allow c2.
                and_call-Leaves c2 (u64_array (text "ignored_vendors") args, c2) _ refl
                  (λ ignored c3.
                    and_call-Leaves c3 (check_admins allow (unwrap_or ignored []) m c3) _
                      (check_admins-Leaves allow (unwrap_or ignored []) m c3)
                      (λ u c4.
                        and_call-Leaves c4 (fabric_info m.fabric_for_command c4) _
                          (fabric_info-Leaves m.fabric_for_command c4) (λ fabric c5. rw h refl)))))

    -- Once the command is understood and the fabric is known, no registration of the node is left, and
    -- the others are as they were: whatever the device answers, and whether it is asked at all.
    pub unregister_icd_forgets :
        (args : Args N) (m : Meeting N) (c : ServerContext N) (node_id : ℕ) (force : Bool)
        (fabric : FabricInfo)
        → require_node args c ≡ ok node_id
        → bool_or (text "force") false args ≡ ok force
        → (fabric_info m.fabric_for_command c).0 ≡ ok fabric
        → icd_registrations (unregister_icd args m c).1.config.config
          ≡ keep (λ r. not (r.0 == node_id)) (icd_registrations c.config.config)
    unfolding unregister_icd
    unregister_icd_forgets args m c node_id force fabric e f g =
        rw (unregister_icd, e, f)
          (known (fabric_info m.fabric_for_command c) g (fabric_info-Leaves m.fabric_for_command c))
      where
        dropped :
            (c' : ServerContext N)
            → c'.config ≡ c.config
            → icd_registrations (drop_key m node_id c').config.config
              ≡ keep (λ r. not (r.0 == node_id)) (icd_registrations c.config.config)
        dropped c' s =
            ap icd_registrations
              (drop_key-config m node_id c' ∙ ap (λ k. remove_icd_registration node_id k.config) s)
            ∙ remove_icd_registration-icd_registrations node_id c.config.config

        finish :
            (force : Bool) (own : ℕ) (c' : ServerContext N)
            → c'.config ≡ c.config
            → icd_registrations
                (if force
                  then (ok (forgotten node_id (drop_key m node_id c')), drop_key m node_id c')
                  else and_call
                      (send (unregisters node_id own) m (drop_key m node_id c'))
                      (λ _. read_icd_state m node_id)).1.config.config
              ≡ keep (λ r. not (r.0 == node_id)) (icd_registrations c.config.config)
        finish true own c' s = dropped c' s
        finish false own c' s =
            ap (λ k. icd_registrations k.config)
              (and_call-Leaves (drop_key m node_id c')
                (send (unregisters node_id own) m (drop_key m node_id c')) _ refl
                (λ _. read_icd_state-Leaves m node_id))
            ∙ dropped c' s

        known :
            (r : Api FabricInfo × ServerContext N)
            → r.0 ≡ ok fabric
            → r.1.config ≡ c.config
            → icd_registrations
                (and_call r (λ f c'.
                  if force
                  then (ok (forgotten node_id (drop_key m node_id c')), drop_key m node_id c')
                  else and_call
                      (send (unregisters node_id f.node_id) m (drop_key m node_id c'))
                      (λ _. read_icd_state m node_id))).1.config.config
              ≡ keep (λ r. not (r.0 == node_id)) (icd_registrations c.config.config)
        known (err x, c') k s = cc
        known (ok f, c') k s = finish force f.node_id c' s
