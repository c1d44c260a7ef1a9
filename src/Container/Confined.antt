-- ===== src/Container/Confined.antt =====
-- container.go: what the configuration keeps from the container.
use curimata.Common.{
  ℕ, ◌≡◌, refl, inl, inr, Bool, true, false, not, ◌&&◌, ◌||◌, List, [], ◌∷◌, Option, none, some,
  if◌then◌else◌, Bytes, bytes_eq, codes, Bool-cases, Result, ok, err, Result-cases, All,
}
use curimata.Files.{FilePath, below}
use curimata.Files.Paths.{clean_rooted}
use curimata.IdMaps.{SubIdError, SubIdFile, id_mappings}
use curimata.Limits.{Float, Limits}
use curimata.Container.{
  NamespaceType, newuser, newnet, newns, newuts, newipc, newpid, newcgroup, Namespace, Flag,
  ms_bind, ms_rdonly, Mount, Config, NetnsHolder, sys_mount, cgroup_mount, default_capabilities,
  container_namespaces, container_mounts, config_of, container_config,
}

-- The mount that serves a path is the last one above it.
unfoldable pub serving : List Mount → FilePath → Option Mount
unfolding below clean_rooted
serving [] p = none
serving (m ∷ ms) p =
    let own = if below (clean_rooted m.destination) p then some m else none in
    elim (serving ms p) [ some later ↦ some later | none ↦ own ]

unfoldable pub binds : List Flag → Bool
binds [] = false
binds (ms_bind ∷ flags) = true
binds (_ ∷ flags) = binds flags

unfoldable pub is_rdonly : List Flag → Bool
is_rdonly [] = false
is_rdonly (ms_rdonly ∷ flags) = true
is_rdonly (_ ∷ flags) = is_rdonly flags

-- Nothing below the mount can be written: a bind mount brings the mounts below it along.
unfoldable pub is_sealed : Mount → Bool
unfolding binds is_rdonly
is_sealed m = is_rdonly m.flags && (not (binds m.flags) || m.all_rdonly)

abbrev pub sys : FilePath
sys = codes "sys" ∷ []

abbrev IsWeak : Bytes → Type 0
IsWeak c =
    (bytes_eq c (codes "CAP_SYS_ADMIN") ≡ false) × (bytes_eq c (codes "CAP_NET_ADMIN") ≡ false)

-- The path of the namespace of a kind; none if there is no such namespace.
unfoldable pub same_kind : NamespaceType → NamespaceType → Bool
same_kind newuser newuser = true
same_kind newnet newnet = true
same_kind newns newns = true
same_kind newuts newuts = true
same_kind newipc newipc = true
same_kind newpid newpid = true
same_kind newcgroup newcgroup = true
same_kind _ _ = false

unfoldable pub path_of : NamespaceType → List Namespace → Option (Option Bytes)
unfolding same_kind
path_of kind [] = none
path_of kind (n ∷ ns) =
    let rest = path_of kind ns in if same_kind kind n.kind then some n.path else rest

-- The namespaces that the container shares with the helper, and only these.
abbrev pub shared : Option NetnsHolder → NamespaceType → Option Bytes
shared none kind = none
shared (some h) newuser = some h.user_path
shared (some h) newnet = some h.net_path
shared (some h) newns = none
shared (some h) newuts = none
shared (some h) newipc = none
shared (some h) newpid = none
shared (some h) newcgroup = none

abbrev pub IsConfined : Option NetnsHolder → Result SubIdError Config → Type 0
IsConfined holder (err e) = Unit
IsConfined holder (ok c) =
    ((p : FilePath)
      → below sys p ≡ true
      → (m : Mount) × (serving c.mounts p ≡ some m) × (is_sealed m ≡ true))
    × All (λ m. (not (binds m.flags) || is_sealed m) ≡ true) c.mounts
    × All IsWeak c.bounding
    × All IsWeak c.effective
    × All IsWeak c.permitted
    × ((kind : NamespaceType) → path_of kind c.namespaces ≡ some (shared holder kind))

serving-sys :
    (p : FilePath)
    → below sys p ≡ true
    → (m : Mount) × (serving container_mounts p ≡ some m) × (is_sealed m ≡ true)
unfolding serving container_mounts is_sealed clean_rooted
serving-sys p h = elim (Bool-cases (below (clean_rooted (codes "/sys/fs/cgroup")) p)) [
  | inl e ↦ (cgroup_mount, rw (e, serving, container_mounts) refl, refl)
  | inr e ↦ (sys_mount, rw (e, h, serving, container_mounts) refl, refl)
]

namespaces-shared :
    (holder : Option NetnsHolder) (kind : NamespaceType)
    → path_of kind (container_namespaces holder) ≡ some (shared holder kind)
unfolding path_of container_namespaces
namespaces-shared none newuser = refl
namespaces-shared none newnet = refl
namespaces-shared none newns = refl
namespaces-shared none newuts = refl
namespaces-shared none newipc = refl
namespaces-shared none newpid = refl
namespaces-shared none newcgroup = refl
namespaces-shared (some h) newuser = refl
namespaces-shared (some h) newnet = refl
namespaces-shared (some h) newns = refl
namespaces-shared (some h) newuts = refl
namespaces-shared (some h) newipc = refl
namespaces-shared (some h) newpid = refl
namespaces-shared (some h) newcgroup = refl

capabilities-IsWeak : All IsWeak default_capabilities
unfolding bytes_eq
capabilities-IsWeak =
    let w : (◌≡◌ {A = Bool} false false) × (◌≡◌ {A = Bool} false false) = (refl, refl) in
    (w, (w, (w, (w, (w, (w, (w, (w, (w, (w, (w, (w, (w, tt)))))))))))))

-- The configuration of a container, if there is one: whatever path below /sys is looked at, it is served by a mount that cannot be
-- written, nor can what is mounted below it; a bind mount of the host is sealed in the same way; no set of
-- capabilities has CAP_SYS_ADMIN or CAP_NET_ADMIN; and there is a namespace of each kind, the user and
-- the network namespace those of the helper if it runs, and all others new.
pub container_config-IsConfined :
    (float : Float) (current : Option Bytes) (uid gid : ℕ) (uids gids : Option SubIdFile)
    (rootfs name : Bytes) (lim : Limits float.F) (session : Bool) (holder : Option NetnsHolder)
    → IsConfined holder
        (container_config float current uid gid uids gids rootfs name lim session holder)
unfolding container_config config_of container_mounts is_sealed
container_config-IsConfined float current uid gid uids gids rootfs name lim session holder =
    elim (Result-cases (id_mappings current uid uids)) [
      | inr (e, q) ↦ rw (q, container_config) tt
      | inl (users, q) ↦ elim (Result-cases (id_mappings current gid gids)) [
        | inr (e, k) ↦ rw (q, k, container_config) tt
        | inl (groups, k) ↦
            rw (q, k, container_config, config_of)
              (
                serving-sys,
                (refl, (refl, (refl, (refl, (refl, (refl, (refl, tt))))))),
                capabilities-IsWeak,
                capabilities-IsWeak,
                capabilities-IsWeak,
                namespaces-shared holder,
              )
      ]
    ]
