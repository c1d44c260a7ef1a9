-- ===== src/Args/Ready.antt =====
-- main.go: what `parseRunArgs` promises of its options.
use curimata.Common.{
  ◌≡◌, ◌≢◌, refl, inl, inr, true, List, [], ◌∷◌, Option, none, some, Bytes, bytes_eq, codes,
  Bool-cases, Result, ok, err, Result-cases, ◌||◌,
}
use curimata.Box.Remove.{is_box_name}
use curimata.Netguard.Allowlist.{Allowlist, AllowError}
use curimata.Limits.{Float, Limits, check, systemd_scope, require_scope}
use curimata.Policy.{Policy, Json, Settings, load_policy, apply, load_allowlist}
use curimata.Rootfs
use curimata.Rootfs.{Resolved, resolve_rootfs}
use curimata.Rootfs.Lock.{IsLocked, resolve_rootfs-IsLocked}
use curimata.Args.{
  Flags, World, Options, ArgsError, has_image, command_or_shell, with_allowlist, with_rootfs,
  with_limits, with_policy, parse_flags, parse_run_args,
}

module _ (float : Float) (w : World float.F) where
  -- An error leaves no lock. Options come with the lock of their name, which is valid, a command, and limits
  -- that pass the checks.
  abbrev pub IsReady : Result ArgsError (Options float.F) → Option Bytes → Type 0
  IsReady (err e) held = held ≡ none
  IsReady (ok o) held =
      (held ≡ some o.name)
      × (is_box_name o.name ≡ true)
      × (o.command ≢ [])
      × (check float o.lim w.cpu_count ≡ ok tt)
      × (require_scope float o.lim (systemd_scope float o.lim w.session) ≡ ok tt)

  command_or_shell-some :
      (answers : Rootfs.World) (rootfs : Bytes) (command : List Bytes)
      → command_or_shell answers rootfs command ≢ []
  unfolding command_or_shell
  command_or_shell-some answers rootfs [] h = cc
  command_or_shell-some answers rootfs (c ∷ command) h = cc

  module _ (json : Json float.F) (flags : Flags float.F) where
    with_allowlist-IsReady :
        (lim : Limits float.F) (answers : Rootfs.World) (rootfs name : Bytes) (command : List Bytes)
        (held : Option Bytes) (allow : Result AllowError (Option Allowlist))
        → held ≡ some name
        → is_box_name name ≡ true
        → check float lim w.cpu_count ≡ ok tt
        → require_scope float lim (systemd_scope float lim w.session) ≡ ok tt
        → IsReady
            (with_allowlist lim answers rootfs name command held allow).result
            (with_allowlist lim answers rootfs name command held allow).held
    unfolding with_allowlist
    with_allowlist-IsReady lim answers rootfs name command held (err e) h n c r = refl
    with_allowlist-IsReady lim answers rootfs name command held (ok allow) h n c r =
        (h, n, command_or_shell-some answers rootfs command, c, r)

    with_rootfs-IsReady :
        (policy : Option (Policy float.F)) (lim : Limits float.F) (answers : Rootfs.World)
        (resolved : Resolved)
        → check float lim w.cpu_count ≡ ok tt
        → require_scope float lim (systemd_scope float lim w.session) ≡ ok tt
        → IsLocked resolved
        → IsReady
            (with_rootfs float json w flags policy lim answers resolved).result
            (with_rootfs float json w flags policy lim answers resolved).held
    unfolding with_rootfs
    with_rootfs-IsReady policy lim answers resolved c r (inl (nothing, free)) =
        rw (nothing, with_rootfs) free
    with_rootfs-IsReady policy lim answers resolved c r
          (inr (path, name, command, found, held, valid)) =
        rw (found, with_rootfs)
          (with_allowlist-IsReady lim answers path name command resolved.held
            (load_allowlist flags.allow policy) held valid c r)

    with_limits-IsReady :
        (policy : Option (Policy float.F)) (s : Settings float.F) (first : Bytes)
        (rest : List Bytes)
        → IsReady
            (with_limits float json w flags policy s first rest).result
            (with_limits float json w flags policy s first rest).held
    unfolding with_limits
    with_limits-IsReady policy s first rest = elim (Result-cases (check float s.lim w.cpu_count)) [
      | inr (e, q) ↦ rw (q, with_limits) refl
      | inl (u, q) ↦
          elim (Result-cases (require_scope float s.lim (systemd_scope float s.lim w.session))) [
            | inr (e, k) ↦ rw (q, k, with_limits) refl
            | inl (v, k) ↦
                let answers =
                  w.rootfs s.image (flags.given (codes "image") || has_image policy) flags.repull in
                rw (q, k, with_limits)
                  (with_rootfs-IsReady policy s.lim answers (resolve_rootfs answers first rest) q k
                    (resolve_rootfs-IsLocked answers first rest))
          ]
    ]

    with_policy-IsReady :
        (policy : Option (Policy float.F)) (positional : List Bytes)
        → IsReady
            (with_policy float json w flags policy positional).result
            (with_policy float json w flags policy positional).held
    unfolding with_policy
    with_policy-IsReady policy [] = refl
    with_policy-IsReady policy (first ∷ rest) =
        with_limits-IsReady policy
          (apply policy flags.given (record { image = flags.image; lim = flags.lim })) first rest

    parse_flags-IsReady :
        IsReady (parse_flags float json w flags).result (parse_flags float json w flags).held
    unfolding parse_flags
    parse_flags-IsReady = elim (Bool-cases (bytes_eq flags.config [])) [
      | inl e ↦ rw (e, parse_flags) (with_policy-IsReady none flags.positional)
      | inr e ↦ elim (Result-cases (load_policy json (w.read flags.config))) [
        | inr (x, q) ↦ rw (e, q, parse_flags) refl
        | inl (p, q) ↦ rw (e, q, parse_flags) (with_policy-IsReady (some p) flags.positional)
      ]
    ]

-- Whatever the command line, the policy file and the system: if `parseRunArgs` fails then no lock of a name is held;
-- if it succeeds then the lock of the container's name is held, the name is valid, there is a command, and
-- the limits, those of the policy file included, pass the check and have the scope that they need.
pub parse_run_args-IsReady :
    (float : Float) (json : Json float.F) (w : World float.F) (parsed : Option (Flags float.F))
    → IsReady float w
        (parse_run_args float json w parsed).result
        (parse_run_args float json w parsed).held
unfolding parse_run_args
parse_run_args-IsReady float json w none = refl
parse_run_args-IsReady float json w (some flags) = parse_flags-IsReady float w json flags
