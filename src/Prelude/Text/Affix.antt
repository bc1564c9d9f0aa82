-- ===== src/Prelude/Text/Affix.antt =====
-- `str`: prefixes and suffixes, joining, replacing a character by nothing.
use rs_matter_server.Prelude.Tests.{if◌then◌else◌, leb, is_some}
use rs_matter_server.Prelude.Lists.{length, take, drop, keep}
use rs_matter_server.Prelude.Order.{◌==◌, nat_ord, text_ord}
use rs_matter_server.Prelude.Text.{Text}
use Prim.Native.Nat.{ℕ, ◌-◌}
use mathlib.Core.Bool.{Bool, true, false, not, ◌&&◌}
use mathlib.Core.Option.{Option, none, some}
use mathlib.Core.List.{List, [], ◌∷◌, ◌++◌}

unfoldable pub starts_with : Text → Text → Bool
starts_with s [] = true
starts_with [] (d ∷ prefix) = false
starts_with (c ∷ s) (d ∷ prefix) = c == d && starts_with s prefix

unfoldable pub strip_prefix : Text → Text → Option Text
unfolding starts_with
strip_prefix prefix s = if starts_with s prefix then some (drop (length prefix) s) else none

unfoldable pub strip_suffix : Text → Text → Option Text
strip_suffix suffix t =
    let n : ℕ = length t - length suffix in
    if leb (length suffix) (length t)
    then (if drop n t == suffix then some (take n t) else none)
    else none

unfoldable pub ends_with : Text → Text → Bool
unfolding strip_suffix
ends_with s suffix = is_some (strip_suffix suffix s)

-- `[T]::join`.
unfoldable pub join : Text → List Text → Text
join separator [] = []
join separator (s ∷ []) = s
join separator (s ∷ t ∷ more) = s ++ (separator ++ join separator (t ∷ more))

-- `replace(c, "")`.
unfoldable pub without : ℕ → Text → Text
without c s = keep (λ d. not (d == c)) s
