-- ===== src/Protocol/Message/Tests.antt =====
-- The accessors at one object.
use rs_matter_server.Prelude.{ℕ, ◌≡◌, refl, some, ok, text_cmp}
use rs_matter_server.Prelude.Text.{Text, text}
use rs_matter_server.Protocol.Json.{Numbers, Value, field, end, get, nat_numbers, nat_as_u64}
use rs_matter_server.Protocol.Message.{Args, bounded, u8, u16, u32, u64, arg}
use rs_matter_server.Protocol.Message.Access.{narrowed, wide_8}

instance numbers : Numbers ℕ
unfolding nat_numbers
numbers = nat_numbers

abbrev name : Text
name = text "n"

abbrev args : Args ℕ
args = Value.object (field name (Value.number 7) end)

seven : narrowed wide_8 name args ≡ ok (some 7)
unfolding u8 bounded u16 u32 u64 arg numbers nat_numbers nat_as_u64 get text_cmp
seven = refl
