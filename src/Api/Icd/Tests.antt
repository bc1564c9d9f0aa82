-- ===== src/Api/Icd/Tests.antt =====
-- One sleepy node, registered and unregistered, and a device with administrators of four fabrics.
use rs_matter_server.Prelude.{
  text_cmp, ℕ, ◌≡◌, refl, true, false, not, none, some, [], ◌∷◌, ◌==◌, nat_ord, text_ord, any, keep,
  ok, err, unwrap_or, and_then,
}
use rs_matter_server.Prelude.Text.{text}
use rs_matter_server.Prelude.Map.{get}
use rs_matter_server.Protocol.Json
use rs_matter_server.Protocol.Json.{Numbers, Value, Items, Fields, nat_numbers, as_array}
use rs_matter_server.Protocol.Message.{req_u64, u64, arg, bool, array, Args, bool_or}
use rs_matter_server.Protocol.Error.{Api, unknown}
use rs_matter_server.Protocol.Model.{AttributesData}
use rs_matter_server.Protocol.Model
use rs_matter_server.Protocol.Model.Endpoints.{contains, IsIncreasing}
use rs_matter_server.Storage.Config.{initial}
use rs_matter_server.Storage.Config.Store.{missing}
use rs_matter_server.Storage.Config.Registrations.{Base64, icd_registrations}
use rs_matter_server.Api.Context.{FabricInfo, ServerContext, fabric_info, require_node}
use rs_matter_server.Api.Icd.{Meeting, unregister_icd, vendors_of}
use rs_matter_server.Api.Icd.Keys.{unregister_icd_forgets}
use rs_matter_server.Api.Icd.Admins.{is_foreign, vendors_of-contains}

instance numbers : Numbers ℕ
unfolding nat_numbers
numbers = nat_numbers

-- Stands for base64 here: a text is its own encoding.
instance codec : Base64
codec = record { encode = λ bytes. bytes; decode = λ t. some t; decode-encode = λ bytes. refl }

abbrev fabric : FabricInfo
fabric = record {
  fabric_id = 1;
  compressed_fabric_id = 7;
  fabric_index = 1;
  node_id = 112233;
  vendor_id = 65521;
  label = [];
}

-- The vendors of four fabrics: this controller's, two of another, and one that is ignored.
abbrev descriptor : ℕ → Value ℕ
descriptor v = Value.object (Fields.field (text "2") (Value.number v) Fields.end)

abbrev fabrics : AttributesData ℕ
fabrics =
    (
      text "0/62/1",
      Value.array (
          Items.cons (descriptor 65521) (
            Items.cons (descriptor 4937)
              (Items.cons (descriptor 4447) (Items.cons (descriptor 4937) Items.nil)))),
    )
    ∷ []

abbrev meeting : Api (Unit {0}) → Meeting ℕ
meeting invoked = record {
  fabric_for_admins = ok fabric;
  fabric_for_command = ok fabric;
  fabric_for_state = ok fabric;
  icd_attributes = ok [];
  fabric_attributes = ok fabrics;
  invoked = invoked;
  key = 1 ∷ 2 ∷ [];
  written = true;
  now = 1000;
}

abbrev context : ServerContext ℕ
context = record {
  nodes = (5, record { node = Model.new 5 []; ip_addresses = []; device_fabric_index = none }) ∷ [];
  config = record { config = initial; path = none; file = missing };
  check_ins = [];
  fabric = none;
  sent = [];
}

abbrev args : Args ℕ
args = Value.object (
    Fields.field (text "node_id") (Value.number 5)
      (Fields.field (text "allow_multi_admin") (Value.bool true) Fields.end))

names_node : require_node args context ≡ ok 5
unfolding require_node req_u64 u64 arg Json.get text_cmp numbers get
names_node = refl

not_forced : bool_or (text "force") false args ≡ ok false
unfolding bool_or bool arg Json.get text_cmp
not_forced = refl

fabric_known : (fabric_info (ok fabric) context).0 ≡ ok fabric
unfolding fabric_info
fabric_known = refl

unregister_icd_forgets_example :
    icd_registrations
      (unregister_icd args (meeting (err (unknown (text "gone")))) context).1.config.config
    ≡ keep (λ r. not (r.0 == 5)) (icd_registrations initial)
unregister_icd_forgets_example =
    unregister_icd_forgets args (meeting (err (unknown (text "gone")))) context 5 false fabric
      names_node not_forced fabric_known

vendors_of-contains_example :
    IsIncreasing (vendors_of fabric (4447 ∷ []) fabrics)
    × ((v : ℕ)
        → contains v (vendors_of fabric (4447 ∷ []) fabrics)
          ≡ any
              (is_foreign 65521 (4447 ∷ []) v)
              (unwrap_or (and_then (get (text "0/62/1") fabrics) as_array) []))
vendors_of-contains_example = vendors_of-contains fabric (4447 ∷ []) fabrics

one_vendor : vendors_of fabric (4447 ∷ []) fabrics ≡ 4937 ∷ []
unfolding vendors_of get text_cmp Json.get numbers
one_vendor = refl
