-- ===== src/Rootfs.antt =====
-- main.go: `resolveRootfs`, `looksLikeRootfs` and `defaultShell`.
pub mod Lock
mod Tests
use curimata.Common.{
  Bool, true, false, not, ◌&&◌, ◌||◌, List, [], ◌∷◌, ◌++◌, Option, none, some, if◌then◌else◌, Bytes,
  codes,
}
use curimata.Box.Remove.{is_box_name}

-- The answers of the system: `stat` tells whether something is there and whether it is a directory,
-- `locked` whether `lockBox` succeeds, and `prepared` what `prepareBox` gives.
pub record World : Type 0 where
  pub stat : Bytes → Option Bool
  pub locked : Bool
  pub absolute : Bytes → Option Bytes
  pub prepared : Bytes → Option Bytes

abbrev is_there : Option Bool → Bool
is_there none = false
is_there (some d) = true

abbrev is_directory : Option Bool → Bool
is_directory none = false
is_directory (some d) = d

-- The first of the names that exists below the path.
unfoldable pub first_there : (Bytes → Option Bool) → Bytes → List Bytes → Option Bytes
first_there stat path [] = none
first_there stat path (n ∷ names) =
    let rest = first_there stat path names in if is_there (stat (path ++ n)) then some n else rest

unfoldable pub looks_like_rootfs : (Bytes → Option Bool) → Bytes → Bool
unfolding first_there
looks_like_rootfs stat path =
    is_directory (stat path)
    && (elim (first_there stat path
        (codes "/bin" ∷ codes "/usr" ∷ codes "/etc" ∷ codes "/sbin" ∷ [])) [
          | none ↦ false
          | some n ↦ true
        ])

unfoldable pub default_shell : (Bytes → Option Bool) → Bytes → Bytes
unfolding first_there
default_shell stat rootfs =
    elim (first_there stat rootfs (codes "/bin/bash" ∷ codes "/bin/sh" ∷ [])) [
      | none ↦ codes "/bin/sh"
      | some shell ↦ shell
    ]

-- The rootfs with the arguments from the name on, and the name whose lock is held.
pub record Resolved : Type 0 where
  pub result : Option (Bytes × List Bytes)
  pub held : Option Bytes

-- The name is checked and locked; the lock is released if there is no rootfs.
unfoldable pub under_lock : World → Bytes → List Bytes → Option Bytes → Resolved
under_lock w name command rootfs =
    let resolved : Resolved = elim rootfs [
      | none ↦ record { result = none; held = none }
      | some path ↦ record { result = some (path, name ∷ command); held = some name }
    ] in
    if not (is_box_name name) || not w.locked
    then record { result = none; held = none }
    else resolved

-- The arguments are the first and the others.
unfoldable pub resolve_rootfs : World → Bytes → List Bytes → Resolved
unfolding under_lock looks_like_rootfs
resolve_rootfs w first [] = under_lock w first [] (w.prepared first)
resolve_rootfs w first (name ∷ command) =
    if looks_like_rootfs w.stat first
    then under_lock w name command (w.absolute first)
    else under_lock w first (name ∷ command) (w.prepared first)
