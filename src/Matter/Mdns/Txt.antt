-- ===== src/Matter/Mdns/Txt.antt =====
-- server/src/matter/mdns_browser.rs: the `key=value` strings of a TXT record.
use rs_matter_server.Prelude.{
  ℕ, zero, suc, ◌||◌, Option, none, some, List, [], ◌∷◌, ◌++◌, ◌==◌, nat_ord, text_ord, ltb, length,
  take, drop, if◌then◌else◌,
}
use rs_matter_server.Prelude.Text.{Text}
use rs_matter_server.Prelude.Text.Utf8.{from_utf8}
use rs_matter_server.Prelude.Map.{Map, insert}

-- What stands before the first `=`, and what after it.
split_first : List ℕ → Option (List ℕ × List ℕ)
split_first [] = none
split_first (b ∷ bytes) =
    if b == b'='
    then some ([], bytes)
    else elim (split_first bytes) [ none ↦ none | some (key, value) ↦ some (b ∷ key, value) ]

put_text : Option Text → List ℕ → Map Text (List ℕ) → Map Text (List ℕ)
put_text none value out = out
put_text (some key) value out = insert key value out

-- A key that is no UTF-8 is passed over; a bare key has no value.
unfoldable pub put_entry : List ℕ → Map Text (List ℕ) → Map Text (List ℕ)
unfolding split_first put_text
put_entry entry out = elim (split_first entry) [
  | some (key, value) ↦ put_text (from_utf8 key) value out
  | none ↦ put_text (from_utf8 entry) [] out
]

-- The loop, on what is left of the data; each round takes a byte of it at least.
unfoldable pub txt_loop : ℕ → List ℕ → Map Text (List ℕ) → Map Text (List ℕ)
txt_loop zero bytes out = out
txt_loop (suc fuel) [] out = out
txt_loop (suc fuel) (n ∷ rest) out =
    if n == 0 || ltb (length rest) n
    then out
    else txt_loop fuel (drop n rest) (put_entry (take n rest) out)

unfoldable pub parse_txt : List ℕ → Map Text (List ℕ)
unfolding txt_loop
parse_txt bytes = txt_loop (length bytes) bytes []

-- TXT data, each string behind its length.
unfoldable pub encode_txt : List (List ℕ) → List ℕ
encode_txt [] = []
encode_txt (entry ∷ entries) = length entry ∷ entry ++ encode_txt entries

unfoldable pub put_entries : List (List ℕ) → Map Text (List ℕ) → Map Text (List ℕ)
put_entries [] out = out
put_entries (entry ∷ entries) out = put_entries entries (put_entry entry out)
