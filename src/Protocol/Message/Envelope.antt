-- ===== src/Protocol/Message/Envelope.antt =====
-- server/src/protocol/message.rs: what a client reads off a response.
use rs_matter_server.Prelude.{
  ℕ, ◌≤◌, ◌≡◌, refl, Option, none, some, ok, err, arith, nat_ord, text_ord, text_cmp,
}
use rs_matter_server.Prelude.Text.{text}
use rs_matter_server.Protocol.Error.{ApiError, ErrorCode, as_i64}
use rs_matter_server.Protocol.Json.{Numbers, Value, get, as_u64, u64_max}
use rs_matter_server.Protocol.Message.{response_envelope}

as_i64-le : (c : ErrorCode) → as_i64 c ≤ u64_max
unfolding as_i64
as_i64-le c = ground arith

pub as_i64_injective : (c d : ErrorCode) → as_i64 c ≡ as_i64 d → c ≡ d
unfolding as_i64
as_i64_injective c d h = ground arith

-- The code that the client finds in a response, if there is one.
abbrev pub code_on_wire : {N : Type 0} ⦃num : Numbers N⦄ → Value N → Option ℕ
code_on_wire v = elim (get (text "error_code") v) [ none ↦ none | some n ↦ as_u64 n ]

module _ {N : Type 0} ⦃num : Numbers N⦄ (id result : Value N) (e : ApiError) where
  -- Both shapes echo the request's id. A success has the handler's result and no error code; a
  -- failure has no result, the number of its code and its details.
  pub envelope_shapes :
      (get (text "message_id") (response_envelope id (ok result)) ≡ some id)
      × (get (text "message_id") (response_envelope id (err e)) ≡ some id)
      × (get (text "result") (response_envelope id (ok result)) ≡ some result)
      × (code_on_wire (response_envelope id (ok result)) ≡ none)
      × (get (text "result") (response_envelope id (err e)) ≡ none)
      × (code_on_wire (response_envelope id (err e)) ≡ some (as_i64 e.code))
      × (get (text "details") (response_envelope id (err e)) ≡ some (Value.string e.details))
  unfolding response_envelope get text_cmp
  envelope_shapes = (refl, refl, refl, refl, refl, num.as_u64-from_u64 _ (as_i64-le e.code), refl)

-- The number on the wire tells the codes apart: two failures with one number have one code.
pub envelope-code_injective :
    {N : Type 0} ⦃num : Numbers N⦄ (i j : Value N) (e f : ApiError)
    → code_on_wire (response_envelope i (err e)) ≡ code_on_wire (response_envelope j (err f))
    → e.code ≡ f.code
envelope-code_injective i j e f h =
    let (_, _, _, _, _, p, _) = envelope_shapes i i e in
    let (_, _, _, _, _, q, _) = envelope_shapes j j f in
    as_i64_injective e.code f.code (ground (arith, p, q))
