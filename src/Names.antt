-- ===== src/Names.antt =====
-- `xdsName` of xds.go, with `strings.Join` and `strings.ReplaceAll` as it uses them.
pub mod Laws
mod Tests
use example_envoy_xds.Base.{ℕ, List, [], ◌∷◌, ◌++◌, map, Text, codes, ◌==◌, if◌then◌else◌}

-- `strings.Join(values, sep)`
unfoldable pub join : List Text → Text → Text
join [] sep = []
join (s ∷ []) sep = s
join (s ∷ t ∷ rest) sep = s ++ (sep ++ join (t ∷ rest) sep)

-- `strings.ReplaceAll(s, "-", "_")`, a replacement of one byte by one byte
unfoldable pub underscore : ℕ → ℕ
underscore c = if c == b'-' then b'_' else c

unfoldable pub replace_all : Text → Text
unfolding underscore
replace_all = map underscore

unfoldable pub xds_name : List Text → Text
unfolding join replace_all
xds_name values = replace_all (join values (codes "_"))
