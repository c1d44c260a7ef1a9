-- ===== src/Limits/Checks.antt =====
-- cgroup.go: limits that pass `check` and `requireScope` are converted exactly.
use curimata.Common.{
  ℕ, zero, suc, Option, ◌*◌, ◌^◌, ◌≤◌, ◌≡◌, ◌⊎◌, inl, inr, refl, Bool, true, false, ◌||◌, none,
  some, Bytes, Bool-cases, ok, arith,
}
use curimata.Common.Int.{ℤ, pos, negsuc, ltb_ℤ}
use curimata.Limits.{
  Float, Limits, bad_cpus, check, systemd_scope, require_scope, mib_bytes, cgroup_config,
  max_memory_mib, max_int64, cpu_period_microseconds, min_cpu_quota_microseconds,
}

mib_bytes_exact : (n : ℕ) → n ≤ max_memory_mib → mib_bytes (pos n) ≡ pos (n * 2 ^ 20)
unfolding mib_bytes
mib_bytes_exact n h = ground arith

memory_fits :
    (m : ℤ)
    → (ltb_ℤ m (pos 0) || ltb_ℤ (pos max_memory_mib) m) ≡ false
    → (n : ℕ) × (m ≡ pos n) × (n ≤ max_memory_mib)
memory_fits (pos n) h = (n, refl, ground arith)
memory_fits (negsuc n) h = absurd (ground arith)

module _ (float : Float) (l : Limits float.F) (max_cpus : ℕ)
    (passed : check float l max_cpus ≡ ok tt) where
  check_memory : (ltb_ℤ l.memory_mib (pos 0) || ltb_ℤ (pos max_memory_mib) l.memory_mib) ≡ false
  unfolding check
  check_memory = ground arith

  check_cpus : bad_cpus float l.cpus max_cpus ≡ false
  unfolding check
  check_cpus = ground arith

  cgroup_memory :
      (name : Bytes) (session : Bool) (n : ℕ)
      → l.memory_mib ≡ pos n
      → n ≤ max_memory_mib
      → (cgroup_config float name l session).memory ≡ pos (n * 2 ^ 20)
  unfolding cgroup_config
  cgroup_memory name session n e h = simp e (ground (arith, mib_bytes_exact n h))

  -- The process limit: a positive one reaches the cgroup, and 0 leaves the number free.
  abbrev pub ArePids : Option ℤ → Type 0
  ArePids limit =
      ((l.pids ≡ pos 0) × (limit ≡ none))
      ⊎ ((n : ℕ) × (1 ≤ n) × (l.pids ≡ pos n) × (limit ≡ some (pos n)))

  -- The CPU limit: a positive one reaches the cgroup as its quota of the period, and any other leaves the CPUs free.
  abbrev pub IsQuota : ℕ → ℤ → Type 0
  IsQuota period quota =
      ((float.ltb float.zero l.cpus ≡ false) × (period ≡ 0) × (quota ≡ pos 0))
      ⊎ ((float.ltb float.zero l.cpus ≡ true)
          × (period ≡ cpu_period_microseconds)
          × (quota ≡ float.quota l.cpus)
          × (ltb_ℤ quota (pos min_cpu_quota_microseconds) ≡ false))

  check_pids : ltb_ℤ l.pids (pos 0) ≡ false
  unfolding check
  check_pids = ground arith

  pids_taken :
      (p : ℤ)
      → ltb_ℤ p (pos 0) ≡ false
      → ((p ≡ pos 0) × (ltb_ℤ (pos 0) p ≡ false))
        ⊎ ((n : ℕ) × (1 ≤ n) × (p ≡ pos n) × (ltb_ℤ (pos 0) p ≡ true))
  pids_taken (pos zero) h = inl (refl, refl)
  pids_taken (pos (suc n)) h = inr (suc n, omega arith, refl, ground arith)
  pids_taken (negsuc n) h = absurd (ground arith)

  cgroup_pids :
      (name : Bytes) (session : Bool) → ArePids (cgroup_config float name l session).pids_limit
  unfolding cgroup_config
  cgroup_pids name session = elim (pids_taken l.pids check_pids) [
    | inl (z, e) ↦ inl (z, rw e refl)
    | inr (n, one, same, e) ↦ inr (n, one, same, rw (e, same) refl)
  ]

  cgroup-IsQuota :
      (name : Bytes) (session : Bool)
      → let c = cgroup_config float name l session in IsQuota c.cpu_period c.cpu_quota
  unfolding cgroup_config bad_cpus
  cgroup-IsQuota name session = elim (Bool-cases (float.ltb float.zero l.cpus)) [
    | inl e ↦ let b = check_cpus in inr (e, rw e refl, rw e refl, rw e (ground arith))
    | inr e ↦ inl (e, rw e refl, rw e refl)
  ]

  -- Limits that `check` accepts reach the cgroup exactly: the memory limit in bytes does not wrap around and
  -- fits an int64, and swap is held to it; a positive process limit is set and 0 leaves the number free; and a
  -- positive CPU limit is set as its quota of the period, which is not below the smallest that the
  -- kernel accepts, while any other leaves the CPUs free.
  pub cgroup_config-check :
      (name : Bytes) (session : Bool)
      → let c = cgroup_config float name l session in
        ((n : ℕ) × (l.memory_mib ≡ pos n)
          × (c.memory ≡ pos (n * 2 ^ 20))
          × (n * 2 ^ 20 ≤ max_int64)
          × (c.memory_swap ≡ c.memory))
        × ArePids c.pids_limit
        × IsQuota c.cpu_period c.cpu_quota
  unfolding cgroup_config
  cgroup_config-check name session =
      let (n, e, h) = memory_fits l.memory_mib check_memory in
      (
        (n, e, cgroup_memory name session n e h, omega arith, refl),
        cgroup_pids name session,
        cgroup-IsQuota name session,
      )

-- A configuration that passes `requireScope` either gets a systemd scope, or it limits nothing: no limit is
-- ever set where it could not be enforced.
cgroup_config-require_scope :
    (float : Float) (l : Limits float.F) (name : Bytes) (session : Bool)
    → require_scope float l (systemd_scope float l session) ≡ ok tt
    → let c = cgroup_config float name l session in
      (c.systemd ≡ true)
      ⊎ ((c.memory ≡ pos 0)
          × (c.memory_swap ≡ pos 0)
          × (c.pids_limit ≡ none)
          × (c.cpu_period ≡ 0)
          × (c.cpu_quota ≡ pos 0))
unfolding cgroup_config require_scope
cgroup_config-require_scope float l name session h =
    elim (Bool-cases (systemd_scope float l session)) [
      | inl e ↦ inl e
      | inr e ↦ inr (ground arith, ground arith, ground arith, ground arith, ground arith)
    ]
