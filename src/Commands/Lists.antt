-- ===== src/Commands/Lists.antt =====
-- `splitList` of cmd/wsnctl/main.go.
pub mod Joined
use wsn.Prelude.{List, [], ◌∷◌, map, Bool, true, false, if◌then◌else◌}
use wsn.Protocol.{Bytes}
use wsn.Text.{trim_space, split}

abbrev is_blank : Bytes → Bool
is_blank [] = true
is_blank (c ∷ s) = false

unfoldable pub split_list : Bytes → List Bytes
split_list value = if is_blank (trim_space value) then [] else map trim_space (split b',' value)
