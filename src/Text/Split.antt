-- ===== src/Text/Split.antt =====
-- `net.JoinHostPort` and `strings.Join`.
pub mod Injective
use curimata.Common.{List, [], ◌∷◌, ◌++◌, Bytes, if◌then◌else◌}
use curimata.Text.Search.{contains}

-- A host with a colon is an IPv6 address and gets brackets.
unfoldable pub join_host_port : Bytes → Bytes → Bytes
unfolding contains
join_host_port host port =
    if contains host b':' then b'[' ∷ (host ++ (b']' ∷ b':' ∷ port)) else host ++ (b':' ∷ port)

unfoldable pub join : List Bytes → Bytes → Bytes
join [] sep = []
join (p ∷ []) sep = p
join (p ∷ q ∷ ps) sep = p ++ (sep ++ join (q ∷ ps) sep)

-- The texts one behind the other.
unfoldable pub concat : List Bytes → Bytes
concat [] = []
concat (s ∷ ss) = s ++ concat ss
