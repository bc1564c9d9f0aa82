-- ===== src/Api/Icd.antt =====
-- server/src/api/icd.rs: registering with devices that sleep. Times are milliseconds; what the device
-- and the Matter stack answer, the random key, and whether the write to disk succeeds are arguments.
pub mod Keys
pub mod Admins
mod Tests
use rs_matter_server.Prelude.{
  ℕ, ◌+◌, ◌-◌, ◌*◌, ◌/◌, ◌%◌, ◌^◌, ◌&&◌, Bool, true, false, not, Option, none, some, List, [], ◌∷◌,
  ◌++◌, ◌==◌, nat_ord, text_ord, any, keep, map, length, ltb, leb, if◌then◌else◌, unwrap_or,
  and_then, Result, ok, err, ◌>>=◌,
}
use rs_matter_server.Prelude.Text.{Text, text, show}
use rs_matter_server.Prelude.Text.Affix.{join}
use rs_matter_server.Prelude.Map.{get}
use rs_matter_server.Protocol.Json
use rs_matter_server.Protocol.Json.{Numbers, Value, as_array, as_u64}
use rs_matter_server.Protocol.Message.{Args, bool_or, u64_array}
use rs_matter_server.Protocol.Model.{AttributesData, sort, dedup}
use rs_matter_server.Protocol.Error.{Api, ApiError, new, icd_multi_admin}
use rs_matter_server.Storage.Nodes.{get_node}
use rs_matter_server.Storage.Config.Store.{ConfigStore, mutate}
use rs_matter_server.Storage.Config.Registrations.{
  Base64, set_icd_registration, remove_icd_registration,
}
use rs_matter_server.Api.Context.{
  FabricInfo, Sent, registers, unregisters, ServerContext, fabric_info, last_check_in, and_call,
  require_node,
}

pub data IcdOperatingMode : Type 0 where
  sit lit : IcdOperatingMode

pub record IcdStateData : Type 0 where
  pub supported : Bool
  pub lit_supported : Bool
  pub registered : Bool
  pub operating_mode : Option IcdOperatingMode
  pub awake : Option Bool
  pub available : Option Bool
  pub next_expected_checkin : Option ℕ

unfoldable pub unsupported : IcdStateData
unsupported = record {
  supported = false;
  lit_supported = false;
  registered = false;
  operating_mode = none;
  awake = none;
  available = none;
  next_expected_checkin = none;
}

-- What a handler meets: the stack's answers about the fabric, when the other administrators are
-- looked for, for the command, and for the state; what reading the two clusters and what invoking
-- the command answers; the random key; whether the configuration is written; and the time.
pub record Meeting (N : Type 0) : Type 0 where
  pub fabric_for_admins : Api FabricInfo
  pub fabric_for_command : Api FabricInfo
  pub fabric_for_state : Api FabricInfo
  pub icd_attributes : Api (AttributesData N)
  pub fabric_attributes : Api (AttributesData N)
  pub invoked : Api (Unit {0})
  pub key : List ℕ
  pub written : Bool
  pub now : ℕ

-- A check-in that lies in the future has no `elapsed`.
unfoldable pub awake : ℕ → Option ℕ → Option ℕ → Option Bool
awake now last_check_in active_ms =
    and_then last_check_in
      (λ last. if leb last now then and_then active_ms (λ ms. some (ltb (now - last) ms)) else none)

-- Within the times that `SystemTime` holds, past which the addition panics.
unfoldable pub next_expected_checkin : Option ℕ → Option ℕ → Option ℕ
next_expected_checkin last_check_in idle_secs =
    and_then last_check_in
      (λ last. and_then idle_secs (λ secs. some ((last + secs * 1000) % 2 ^ 64)))

unfoldable pub multi_admin : List ℕ → ApiError
multi_admin others = new icd_multi_admin (
    b'{' ∷ b'"' ∷ text "admin_vendor_ids"
    ++ (b'"' ∷ b':' ∷ b'[' ∷ join (text ",") (map show others)
        ++ (b']' ∷ b',' ∷ b'"' ∷ text "message"
            ++ (b'"'
                  ∷ b':'
                  ∷ b'"'
                  ∷ text "Peer has administrators from other vendors that may not support LIT"
                ++ (b'"' ∷ b'}' ∷ [])))))

unfoldable pub mode_of : Option ℕ → Option IcdOperatingMode
mode_of none = none
mode_of (some mode) = if mode == 0 then some sit else if mode == 1 then some lit else none

abbrev pub same_node : Option ℕ → Option ℕ → Bool
same_node none none = true
same_node (some a) (some b) = a == b
same_node _ _ = false

module _ {N : Type 0} ⦃num : Numbers N⦄ where
  abbrev pub icd_attribute : AttributesData N → ℕ → Option (Value N)
  icd_attribute attributes id = get (text "0/70/" ++ show id) attributes

  abbrev pub number_at : Option (Value N) → Option ℕ
  number_at o = and_then o as_u64

  -- Whether a client that is registered is this controller, compared as options.
  unfoldable pub is_registered : Option ℕ → Option (Value N) → Bool
  is_registered controller clients =
      any (λ client. same_node (number_at (Json.get (text "1") client)) controller)
        (unwrap_or (and_then clients as_array) [])

  abbrev pub available_in : ServerContext N → ℕ → Option Bool
  available_in c node_id = and_then (get_node c.nodes node_id) (λ node. some node.available)

  unfoldable pub state_of :
      Meeting N → ℕ → AttributesData N → Api FabricInfo → ServerContext N → IcdStateData
  unfolding mode_of is_registered awake next_expected_checkin last_check_in get_node
  state_of m node_id attributes fabric c = record {
    supported = true;
    lit_supported = unwrap_or (number_at (icd_attribute attributes 65532)) 0 / 4 % 2 == 1;
    registered =
        is_registered (elim fabric [ ok f ↦ some f.node_id | err e ↦ none ])
          (icd_attribute attributes 3);
    operating_mode = mode_of (number_at (icd_attribute attributes 8));
    awake = awake m.now (last_check_in node_id c) (number_at (icd_attribute attributes 1));
    available = available_in c node_id;
    next_expected_checkin =
        next_expected_checkin (last_check_in node_id c) (number_at (icd_attribute attributes 0));
  }

  -- A device without the cluster answers with a status, or with nothing.
  unfoldable pub read_icd_state :
      Meeting N → ℕ → ServerContext N → Api IcdStateData × ServerContext N
  unfolding state_of fabric_info
  read_icd_state m node_id c = elim m.icd_attributes [
    | err e ↦ (ok unsupported, c)
    | ok attributes ↦
        let asked = fabric_info m.fabric_for_state c in
        if length attributes == 0
        then (ok unsupported, c)
        else (ok (state_of m node_id attributes asked.0 asked.1), asked.1)
  ]

  unfoldable pub get_icd_state :
      Args N → Meeting N → ServerContext N → Api IcdStateData × ServerContext N
  unfolding read_icd_state require_node
  get_icd_state args m c = and_call (require_node args c, c) (λ node_id. read_icd_state m node_id)

  -- The vendors of the entries, those that are this fabric's or are ignored left out, cut to 16 bits.
  unfoldable pub foreign_vendors : ℕ → List ℕ → List (Value N) → List ℕ
  foreign_vendors own ignored [] = []
  foreign_vendors own ignored (entry ∷ entries) =
      let rest = foreign_vendors own ignored entries in
      elim (number_at (Json.get (text "2") entry)) [
        | none ↦ rest
        | some vendor ↦
            if not (vendor == own) && not (any (λ i. i == vendor) ignored)
            then vendor % 2 ^ 16 ∷ rest
            else rest
      ]

  unfoldable pub vendors_of : FabricInfo → List ℕ → AttributesData N → List ℕ
  unfolding foreign_vendors sort dedup
  vendors_of fabric ignored attributes = elim (and_then (get (text "0/62/1") attributes) as_array) [
    | none ↦ []
    | some entries ↦ dedup (sort (foreign_vendors fabric.vendor_id ignored entries))
  ]

  unfoldable pub other_vendor_admins :
      List ℕ → Meeting N → ServerContext N → Api (List ℕ) × ServerContext N
  unfolding fabric_info vendors_of
  other_vendor_admins ignored m c = and_call (fabric_info m.fabric_for_admins c) (λ fabric c.
      and_call (m.fabric_attributes, c)
        (λ attributes c. (ok (vendors_of fabric ignored attributes), c)))

  unfoldable pub check_admins :
      Bool → List ℕ → Meeting N → ServerContext N → Api (Unit {0}) × ServerContext N
  unfolding other_vendor_admins multi_admin
  check_admins allow ignored m c =
      let asked =
        and_call (other_vendor_admins ignored m c)
          (λ others c. (if length others == 0 then ok tt else err (multi_admin others), c)) in
      if allow then (ok tt, c) else asked

  abbrev pub send : Sent → Meeting N → ServerContext N → Api (Unit {0}) × ServerContext N
  send command m c = (m.invoked, record c { sent = c.sent ++ (command ∷ []) })

  -- A key that cannot be written is logged, and kept in memory.
  unfoldable pub store_key : ⦃base64 : Base64⦄ → Meeting N → ℕ → ServerContext N → ServerContext N
  unfolding mutate set_icd_registration
  store_key m node_id c = record c {
    config =
        (mutate m.written (λ config. (set_icd_registration node_id m.key config, tt {0}))
          c.config).1;
  }

  unfoldable pub drop_key : Meeting N → ℕ → ServerContext N → ServerContext N
  unfolding mutate remove_icd_registration
  drop_key m node_id c = record c {
    config =
        (mutate m.written (λ config. (remove_icd_registration node_id config, tt {0})) c.config).1;
  }

  -- The key is stored only after the device accepted it.
  unfoldable pub register_icd :
      ⦃base64 : Base64⦄ → Args N → Meeting N → ServerContext N → Api IcdStateData × ServerContext N
  unfolding require_node bool_or u64_array check_admins fabric_info store_key read_icd_state
  register_icd args m c =
      and_call (require_node args c, c)
        (λ node_id c.
          and_call (bool_or (text "allow_multi_admin") false args, c)
            (λ allow c.
              and_call (u64_array (text "ignored_vendors") args, c)
                (λ ignored c. and_call (check_admins allow (unwrap_or ignored []) m c) (λ _ c.
                  and_call (fabric_info m.fabric_for_command c) (λ fabric c.
                    and_call (send (registers node_id fabric.node_id m.key) m c)
                      (λ _ c. read_icd_state m node_id (store_key m node_id c)))))))

  abbrev pub forgotten : ℕ → ServerContext N → IcdStateData
  forgotten node_id c = record unsupported { supported = true; available = available_in c node_id }

  unfoldable pub unregister_icd :
      Args N → Meeting N → ServerContext N → Api IcdStateData × ServerContext N
  unfolding require_node bool_or fabric_info drop_key read_icd_state get_node unsupported
  unregister_icd args m c =
      and_call (require_node args c, c)
        (λ node_id c.
          and_call (bool_or (text "force") false args, c)
            (λ force c. and_call (fabric_info m.fabric_for_command c) (λ fabric c.
              let dropped = drop_key m node_id c in
              let asked =
                and_call (send (unregisters node_id fabric.node_id) m dropped)
                  (λ _. read_icd_state m node_id) in
              if force then (ok (forgotten node_id dropped), dropped) else asked)))

  -- Both steps are best effort; the ping that follows changes nothing here.
  unfoldable pub resync_icd :
      Args N → Meeting N → ServerContext N → Api (Unit {0}) × ServerContext N
  unfolding require_node fabric_info
  resync_icd args m c =
      and_call (require_node args c, c)
        (λ node_id c.
          and_call (fabric_info m.fabric_for_command c)
            (λ fabric c. (ok tt, (send (unregisters node_id fabric.node_id) m c).1)))
