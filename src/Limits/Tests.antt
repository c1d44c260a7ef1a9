-- ===== src/Limits/Tests.antt =====
-- cgroup.go at concrete limits, with CPUs counted in hundredths.
use curimata.Common.{ℕ, ◌+◌, ◌*◌, ◌^◌, ◌≤◌, ◌≡◌, refl, true, false, codes, ltb, leb, ok, err}
use curimata.Common.Int.{pos, negsuc}
use curimata.Limits.{
  Float, Limits, memory_range, pids_range, cpus_range, scope_missing, check, require_scope,
  systemd_scope, cgroup_config, max_int64, max_memory_mib,
}
use curimata.Limits.Checks.{ArePids, IsQuota, cgroup_config-check}

abbrev hundredths : Float
hundredths = record {
  F = ℕ;
  zero = 0;
  of_ℕ = λ n. n * 100;
  ltb = λ x y. ltb x y;
  leb = λ x y. leb x y;
  quota = λ x. pos (x * 1000);
}

abbrev some_limits : Limits ℕ
some_limits = record { memory_mib = pos 512; pids = pos 64; cpus = 150; no_systemd = false }

abbrev no_limits : Limits ℕ
no_limits = record { memory_mib = pos 0; pids = pos 0; cpus = 0; no_systemd = true }

checked : check hundredths some_limits 4 ≡ ok tt
unfolding check
checked = refl

refused :
    (check hundredths (record some_limits { memory_mib = pos (max_memory_mib + 1) }) 4
      ≡ err memory_range)
    × (check hundredths (record some_limits { pids = negsuc 4 }) 4 ≡ err pids_range)
    × (check hundredths (record some_limits { cpus = 401 }) 4 ≡ err cpus_range)
    × (require_scope hundredths some_limits false ≡ err scope_missing)
unfolding check require_scope
refused = (refl, refl, refl, refl)

cgroup_config-check_example :
    let c = cgroup_config hundredths (codes "box") some_limits true in
    ((n : ℕ) × (some_limits.memory_mib ≡ pos n)
      × (c.memory ≡ pos (n * 2 ^ 20))
      × (n * 2 ^ 20 ≤ max_int64)
      × (c.memory_swap ≡ c.memory))
    × ArePids hundredths some_limits 4 checked c.pids_limit
    × IsQuota hundredths some_limits 4 checked c.cpu_period c.cpu_quota
cgroup_config-check_example =
    cgroup_config-check hundredths some_limits 4 checked (codes "box") true

no_scope : require_scope hundredths no_limits (systemd_scope hundredths no_limits true) ≡ ok tt
unfolding require_scope systemd_scope
no_scope = refl
