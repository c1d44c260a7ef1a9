-- ===== src/Limits.antt =====
-- cgroup.go: `limits`, its checks, and what `cgroupConfig` makes of it.
pub mod Checks
mod Tests
use curimata.Common.{
  ℕ, ◌+◌, ◌-◌, ◌*◌, ◌/◌, ◌%◌, ◌^◌, ◌≤◌, ◌<◌, ◌≡◌, Bool, true, false, not, ◌&&◌, ◌||◌, Option, none,
  some, ltb, leb, if◌then◌else◌, Bytes, codes, Result, ok, err,
}
use curimata.Common.Int.{ℤ, pos, negsuc, ltb_ℤ, leb_ℤ}

-- A `float64` with the operations that the code uses: comparisons, which are false on NaN, the value of
-- an integer, and `int64(x * cpuPeriodMicroseconds)`.
pub record Float : Type 1 where
  pub F : Type 0
  pub zero : F
  pub of_ℕ : ℕ → F
  pub ltb : F → F → Bool
  pub leb : F → F → Bool
  pub quota : F → ℤ

abbrev pub cpu_period_microseconds : ℕ
cpu_period_microseconds = 100000

abbrev pub min_cpu_quota_microseconds : ℕ
min_cpu_quota_microseconds = 1000

abbrev pub max_int64 : ℕ
max_int64 = 2 ^ 63 - 1

-- `math.MaxInt64 >> 20`
abbrev pub max_memory_mib : ℕ
max_memory_mib = max_int64 / 2 ^ 20

pub record Limits (F : Type 0) : Type 0 where
  pub memory_mib : ℤ
  pub pids : ℤ
  pub cpus : F
  pub no_systemd : Bool

pub data LimitError : Type 0 where
  memory_range pids_range cpus_range : LimitError
  scope_disabled scope_missing : LimitError

module _ (float : Float) where
  open float use {F, zero, of_ℕ, quota}

  -- The test of `check` on the CPU limit.
  unfoldable pub bad_cpus : F → ℕ → Bool
  bad_cpus cpus max_cpus =
      not (float.leb zero cpus && float.leb cpus (of_ℕ max_cpus))
      || float.ltb zero cpus && ltb_ℤ (quota cpus) (pos min_cpu_quota_microseconds)

  unfoldable pub check : Limits F → ℕ → Result LimitError (Unit {0})
  unfolding bad_cpus
  check l max_cpus =
      if ltb_ℤ l.memory_mib (pos 0) || ltb_ℤ (pos max_memory_mib) l.memory_mib
      then err memory_range
      else if ltb_ℤ l.pids (pos 0)
      then err pids_range
      else if bad_cpus l.cpus max_cpus
      then err cpus_range
      else ok tt

  unfoldable pub requested : Limits F → Bool
  requested l = ltb_ℤ (pos 0) l.memory_mib || (ltb_ℤ (pos 0) l.pids || float.ltb zero l.cpus)

  -- `session` is what `hasSystemdUserSession` finds.
  unfoldable pub systemd_scope : Limits F → Bool → Bool
  systemd_scope l session = not l.no_systemd && session

  unfoldable pub require_scope : Limits F → Bool → Result LimitError (Unit {0})
  unfolding requested
  require_scope l has_scope =
      if not (requested l) || has_scope
      then ok tt
      else if l.no_systemd
      then err scope_disabled
      else err scope_missing

-- The parts of `cgroups.Cgroup` that `cgroupConfig` decides; 0 and `none` leave a resource free.
pub record Cgroup : Type 0 where
  pub name : Bytes
  pub systemd : Bool
  pub scope_prefix : Bytes
  pub parent : Bytes
  pub memory : ℤ
  pub memory_swap : ℤ
  pub pids_limit : Option ℤ
  pub cpu_period : ℕ
  pub cpu_quota : ℤ

-- A product of 64-bit integers, as it wraps around.
unfoldable pub wrap_int64 : ℕ → ℤ
wrap_int64 n = let m = n % 2 ^ 64 in if leb m max_int64 then pos m else negsuc (2 ^ 64 - 1 - m)

-- `memoryMiB * 1024 * 1024`, for a positive limit.
unfoldable pub mib_bytes : ℤ → ℤ
unfolding wrap_int64
mib_bytes (pos n) = wrap_int64 (n * 1024 * 1024)
mib_bytes (negsuc n) = negsuc n

module _ (float : Float) where
  open float use {F, zero, quota}

  unfoldable pub cgroup_config : Bytes → Limits F → Bool → Cgroup
  unfolding mib_bytes systemd_scope
  cgroup_config name l session =
      let scope = systemd_scope float l session in
      let memory = if ltb_ℤ (pos 0) l.memory_mib then mib_bytes l.memory_mib else pos 0 in
      let limits_cpus = float.ltb zero l.cpus in
      record {
        name = name;
        systemd = scope;
        scope_prefix = if scope then codes "curimata" else codes "";
        parent = if scope then codes "" else codes "curimata";
        memory = memory;
        memory_swap = memory;
        pids_limit = if ltb_ℤ (pos 0) l.pids then some l.pids else none;
        cpu_period = if limits_cpus then cpu_period_microseconds else 0;
        cpu_quota = if limits_cpus then quota l.cpus else pos 0;
      }
