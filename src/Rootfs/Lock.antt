-- ===== src/Rootfs/Lock.antt =====
-- main.go: the lock that `resolveRootfs` hands out.
use curimata.Common.{
  ◌≡◌, ◌⊎◌, refl, inl, inr, true, List, [], ◌∷◌, Option, none, some, Bytes, Bool-cases,
  Option-cases,
}
use curimata.Box.Remove.{is_box_name}
use curimata.Rootfs.{World, looks_like_rootfs, Resolved, under_lock, resolve_rootfs}

-- Without a rootfs no lock is left; with one, the lock of the name behind it is held, and the name is valid.
abbrev pub IsLocked : Resolved → Type 0
IsLocked r =
    ((r.result ≡ none) × (r.held ≡ none))
    ⊎ ((path : Bytes) × (name : Bytes) × (command : List Bytes) × (r.result
          ≡ some (path, name ∷ command))
        × (r.held ≡ some name)
        × (is_box_name name ≡ true))

under_lock-IsLocked :
    (w : World) (name : Bytes) (command : List Bytes) (rootfs : Option Bytes)
    → IsLocked (under_lock w name command rootfs)
unfolding under_lock
under_lock-IsLocked w name command rootfs = elim (Bool-cases (is_box_name name)) [
  | inr e ↦ rw e (inl (refl, refl))
  | inl e ↦ elim (Bool-cases w.locked) [
    | inr f ↦ rw (e, f) (inl (refl, refl))
    | inl f ↦ elim (Option-cases rootfs) [
      | inl g ↦ rw (e, f, g) (inl (refl, refl))
      | inr (path, g) ↦ rw (e, f, g) (inr (path, name, command, refl, refl, e))
    ]
  ]
]

-- Whatever the system answers: if `resolveRootfs` fails, it holds no lock; if it gives a rootfs, it gives the
-- arguments from the container's name on, the name is valid, and its lock is held.
pub resolve_rootfs-IsLocked :
    (w : World) (first : Bytes) (rest : List Bytes) → IsLocked (resolve_rootfs w first rest)
unfolding resolve_rootfs
resolve_rootfs-IsLocked w first [] = under_lock-IsLocked w first [] (w.prepared first)
resolve_rootfs-IsLocked w first (name ∷ command) =
    elim (Bool-cases (looks_like_rootfs w.stat first)) [
      | inl e ↦ rw e (under_lock-IsLocked w name command (w.absolute first))
      | inr e ↦ rw e (under_lock-IsLocked w first (name ∷ command) (w.prepared first))
    ]
