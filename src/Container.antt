-- ===== src/Container.antt =====
-- container.go: `containerConfig` with its namespaces, mounts and networks; netguard.go and main.go: the
-- environment of the command. The devices of libcontainer are its own.
pub mod Confined
mod Tests
use curimata.Common.{
  ℕ, Bool, true, false, List, [], ◌∷◌, ◌++◌, Option, none, some, if◌then◌else◌, Bytes, bytes_eq,
  codes, Result, ok, err,
}
use curimata.IdMaps.{SubIdError, SubIdFile, IdMap, id_mappings}
use curimata.Limits.{Float, Limits, Cgroup, cgroup_config}

pub data NamespaceType : Type 0 where
  newuser newnet newns newuts newipc newpid newcgroup : NamespaceType

-- Without a path the namespace is new.
pub record Namespace : Type 0 where
  pub kind : NamespaceType
  pub path : Option Bytes

-- The flags of mount(2) that the code sets.
pub data Flag : Type 0 where
  ms_noexec ms_nosuid ms_nodev ms_strictatime ms_bind ms_rec ms_rdonly : Flag

-- `options` is `Data`, and `all_rdonly` is `RecAttr` with the attribute for reading alone.
pub record Mount : Type 0 where
  pub source : Bytes
  pub destination : Bytes
  pub device : Bytes
  pub flags : List Flag
  pub options : Bytes
  pub all_rdonly : Bool

pub record Config : Type 0 where
  pub rootfs : Bytes
  pub bounding : List Bytes
  pub effective : List Bytes
  pub permitted : List Bytes
  pub namespaces : List Namespace
  pub cgroups : Cgroup
  pub mask_paths : List Bytes
  pub readonly_paths : List Bytes
  pub hostname : Bytes
  pub mounts : List Mount
  pub uid_mappings : List IdMap
  pub gid_mappings : List IdMap
  pub networks : List Bytes
  pub open_files : ℕ

-- The paths of the namespaces of the helper.
pub record NetnsHolder : Type 0 where
  pub user_path : Bytes
  pub net_path : Bytes

abbrev pub default_capabilities : List Bytes
default_capabilities =
    codes "CAP_AUDIT_WRITE"
    ∷ codes "CAP_CHOWN"
    ∷ codes "CAP_DAC_OVERRIDE"
    ∷ codes "CAP_FOWNER"
    ∷ codes "CAP_FSETID"
    ∷ codes "CAP_KILL"
    ∷ codes "CAP_MKNOD"
    ∷ codes "CAP_NET_BIND_SERVICE"
    ∷ codes "CAP_SETFCAP"
    ∷ codes "CAP_SETGID"
    ∷ codes "CAP_SETPCAP"
    ∷ codes "CAP_SETUID"
    ∷ codes "CAP_SYS_CHROOT"
    ∷ []

abbrev pub fresh : NamespaceType → Namespace
fresh kind = record { kind = kind; path = none }

abbrev pub joined : NamespaceType → Bytes → Namespace
joined kind path = record { kind = kind; path = some path }

-- The user and the network namespace are new or those of the helper.
abbrev pub shared_namespaces : Option NetnsHolder → List Namespace
shared_namespaces none = fresh newuser ∷ fresh newnet ∷ []
shared_namespaces (some h) = joined newuser h.user_path ∷ joined newnet h.net_path ∷ []

unfoldable pub container_namespaces : Option NetnsHolder → List Namespace
container_namespaces holder =
    shared_namespaces holder
    ++ (fresh newns ∷ fresh newuts ∷ fresh newipc ∷ fresh newpid ∷ fresh newcgroup ∷ [])

abbrev pub default_mount_flags : List Flag
default_mount_flags = ms_noexec ∷ ms_nosuid ∷ ms_nodev ∷ []

abbrev pub mount_at : Bytes → Bytes → Bytes → List Flag → Mount
mount_at source destination device flags = record {
  source = source;
  destination = destination;
  device = device;
  flags = flags;
  options = [];
  all_rdonly = false;
}

abbrev pub sys_mount : Mount
sys_mount =
    record (mount_at (codes "/sys") (codes "/sys") (codes "bind")
      (default_mount_flags ++ (ms_bind ∷ ms_rec ∷ ms_rdonly ∷ []))) { all_rdonly = true }

abbrev pub cgroup_mount : Mount
cgroup_mount =
    mount_at (codes "cgroup") (codes "/sys/fs/cgroup") (codes "cgroup")
      (default_mount_flags ++ (ms_rdonly ∷ []))

unfoldable pub container_mounts : List Mount
container_mounts =
    mount_at (codes "proc") (codes "/proc") (codes "proc") default_mount_flags
    ∷ record (mount_at (codes "tmpfs") (codes "/dev") (codes "tmpfs")
        (ms_nosuid ∷ ms_strictatime ∷ [])) { options = codes "mode=755" }
    ∷ record (mount_at (codes "devpts") (codes "/dev/pts") (codes "devpts")
        (ms_nosuid ∷ ms_noexec ∷ [])) { options = codes "newinstance,ptmxmode=0666,mode=0620" }
    ∷ record (mount_at (codes "shm") (codes "/dev/shm") (codes "tmpfs") default_mount_flags) {
      options = codes "mode=1777,size=65536k";
    }
    ∷ mount_at (codes "mqueue") (codes "/dev/mqueue") (codes "mqueue") default_mount_flags
    ∷ sys_mount
    ∷ cgroup_mount
    ∷ []

unfoldable pub loopback_network : Option NetnsHolder → List Bytes
loopback_network none = codes "loopback" ∷ []
loopback_network (some h) = []

-- The configuration, once the mappings are known.
unfoldable pub config_of :
    (float : Float)
    → Bytes
    → Bytes
    → Limits float.F
    → Bool
    → Option NetnsHolder
    → List IdMap
    → List IdMap
    → Config
unfolding container_namespaces container_mounts loopback_network cgroup_config
config_of float rootfs name lim session holder users groups = record {
  rootfs = rootfs;
  bounding = default_capabilities;
  effective = default_capabilities;
  permitted = default_capabilities;
  namespaces = container_namespaces holder;
  cgroups = cgroup_config float name lim session;
  mask_paths = codes "/proc/kcore" ∷ codes "/sys/firmware" ∷ [];
  readonly_paths =
      codes "/proc/sys" ∷ codes "/proc/sysrq-trigger" ∷ codes "/proc/irq" ∷ codes "/proc/bus" ∷ [];
  hostname = name;
  mounts = container_mounts;
  uid_mappings = users;
  gid_mappings = groups;
  networks = loopback_network holder;
  open_files = 1025;
}

-- `containerConfig` of a user with the given IDs, from the name of `user.Current` and the two files.
unfoldable pub container_config :
    (float : Float)
    → Option Bytes
    → ℕ
    → ℕ
    → Option SubIdFile
    → Option SubIdFile
    → Bytes
    → Bytes
    → Limits float.F
    → Bool
    → Option NetnsHolder
    → Result SubIdError Config
unfolding config_of id_mappings
container_config float current uid gid uids gids rootfs name lim session holder =
    elim (id_mappings current uid uids) [
      | err e ↦ err e
      | ok users ↦ elim (id_mappings current gid gids) [
        | err e ↦ err e
        | ok groups ↦ ok (config_of float rootfs name lim session holder users groups)
      ]
    ]

abbrev pub socks_addr : Bytes
socks_addr = codes "127.0.0.1:1080"

abbrev pub http_addr : Bytes
http_addr = codes "127.0.0.1:3128"

unfoldable pub proxy_env : List Bytes
proxy_env =
    (codes "http_proxy=http://" ++ http_addr)
    ∷ (codes "https_proxy=http://" ++ http_addr)
    ∷ (codes "HTTP_PROXY=http://" ++ http_addr)
    ∷ (codes "HTTPS_PROXY=http://" ++ http_addr)
    ∷ (codes "ALL_PROXY=socks5h://" ++ socks_addr)
    ∷ (codes "all_proxy=socks5h://" ++ socks_addr)
    ∷ codes "no_proxy=localhost,127.0.0.1"
    ∷ codes "NO_PROXY=localhost,127.0.0.1"
    ∷ []

-- `containerEnv`, from the value of TERM.
unfoldable pub container_env : Bytes → Bool → List Bytes
unfolding proxy_env bytes_eq
container_env terminal proxied =
    (codes "PATH=/usr/local/sbin:/usr/local/bin:/usr/sbin:/usr/bin:/sbin:/bin"
      ∷ (codes "TERM=" ++ (if bytes_eq terminal [] then codes "xterm" else terminal))
      ∷ codes "HOME=/root"
      ∷ [])
    ++ (if proxied then proxy_env else [])

-- How `libcontainer.Create` ends.
pub data Created : Type 0 where
  created exists_already not_created : Created

pub data Action : Type 0 where
  create clear : Action

pub data CreateError : Type 0 where
  bad_mappings no_state not_cleared create_failed : CreateError

pub record Run : Type 0 where
  pub actions : List Action
  pub result : Result CreateError (Unit {0})

abbrev pub outcome : Created → Result CreateError (Unit {0})
outcome created = ok tt
outcome exists_already = err create_failed
outcome not_created = err create_failed

-- Behind the first call; `cleared` tells whether `clearStoppedContainer` succeeds.
unfoldable pub retry : Created → Bool → Created → Run
retry created cleared second = record { actions = create ∷ []; result = ok tt }
retry not_created cleared second = record { actions = create ∷ []; result = err create_failed }
retry exists_already false second = record {
  actions = create ∷ clear ∷ [];
  result = err not_cleared;
}
retry exists_already true second = record {
  actions = create ∷ clear ∷ create ∷ [];
  result = outcome second;
}

-- `createContainer`
unfoldable pub create_container : Result SubIdError Config → Bool → Created → Bool → Created → Run
unfolding retry
create_container (err e) state first cleared second = record {
  actions = [];
  result = err bad_mappings;
}
create_container (ok c) state first cleared second =
    if state then retry first cleared second else record { actions = []; result = err no_state }
