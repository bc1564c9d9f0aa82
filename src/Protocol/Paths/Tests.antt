-- ===== src/Protocol/Paths/Tests.antt =====
-- Paths, at one path with a wildcard and one without.
use rs_matter_server.Prelude.{◌≡◌, refl, none, some, ok, text_cmp}
use rs_matter_server.Prelude.Text.{
  Text, text, split, parse_uint, strip_plus, parse_digits, to_digit,
}
use rs_matter_server.Protocol.Paths.{ParsedPath, parse_path, segment}
use rs_matter_server.Protocol.Paths.Laws.{PathReads, parse_path-PathReads}

abbrev raw : Text
raw = text "1/*/65533"

abbrev path : ParsedPath
path = record { endpoint = some 1; cluster = none; attribute = some 65533 }

parses : parse_path raw ≡ ok path
unfolding parse_path segment split parse_uint strip_plus parse_digits to_digit text_cmp
parses = refl

parse_path-PathReads_example : PathReads raw path
parse_path-PathReads_example = parse_path-PathReads raw path parses
