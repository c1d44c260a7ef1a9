-- ===== src/Args.antt =====
-- main.go: `parseRunArgs` and `warnFlagAfterName`. What package flag makes of the command line, the policy file and
-- the answers of the system are inputs.
pub mod Ready
mod Tests
use curimata.Common.{
  ℕ, Bool, true, false, not, ◌&&◌, ◌||◌, ◌==◌, List, [], ◌∷◌, ◌++◌, Option, none, some,
  if◌then◌else◌, Bytes, bytes_eq, codes, Result, ok, err,
}
use curimata.Text.Search.{has_prefix}
use curimata.Netguard.Allowlist.{Allowlist, AllowError}
use curimata.Limits.{Float, Limits, LimitError, check, systemd_scope, require_scope}
use curimata.Policy.{Policy, PolicyError, Json, Settings, load_policy, apply, load_allowlist}
use curimata.Rootfs
use curimata.Rootfs.{Resolved, resolve_rootfs, default_shell}

-- What `flagSet.Parse` leaves; `given` is what `Visit` finds.
pub record Flags (F : Type 0) : Type 0 where
  pub image : Bytes
  pub repull : Bool
  pub allow : List Bytes
  pub config : Bytes
  pub lim : Limits F
  pub given : Bytes → Bool
  pub positional : List Bytes

-- `rootfs` gives the answers of the system once the image is known, whether it was chosen and whether to pull it.
pub record World (F : Type 0) : Type 0 where
  pub read : Bytes → Option Bytes
  pub cpu_count : ℕ
  pub session : Bool
  pub rootfs : Bytes → Bool → Bool → Rootfs.World

pub record Options (F : Type 0) : Type 0 where
  pub lim : Limits F
  pub rootfs : Bytes
  pub name : Bytes
  pub command : List Bytes
  pub allow : Option Allowlist

pub data ArgsError : Type 0 where
  bad_flags no_name no_rootfs : ArgsError
  bad_policy : PolicyError → ArgsError
  bad_limits : LimitError → ArgsError
  bad_rules : AllowError → ArgsError

-- The options, and the name whose lock is held in the end.
pub record Parsed (F : Type 0) : Type 0 where
  pub result : Result ArgsError (Options F)
  pub held : Option Bytes

abbrev pub refuse : {F : Type 0} → ArgsError → Parsed F
refuse e = record { result = err e; held = none }

abbrev pub has_image : {F : Type 0} → Option (Policy F) → Bool
has_image none = false
has_image (some p) = not (bytes_eq p.image [])

-- The command, or the shell of the root filesystem.
unfoldable pub command_or_shell : Rootfs.World → Bytes → List Bytes → List Bytes
unfolding default_shell
command_or_shell w rootfs [] = default_shell w.stat rootfs ∷ []
command_or_shell w rootfs (c ∷ command) = c ∷ command

-- The allowlist comes last: an error in it gives the lock back.
unfoldable pub with_allowlist :
    {F : Type 0}
    → Limits F
    → Rootfs.World
    → Bytes
    → Bytes
    → List Bytes
    → Option Bytes
    → Result AllowError (Option Allowlist)
    → Parsed F
unfolding command_or_shell
with_allowlist lim w rootfs name command held (err e) = refuse (bad_rules e)
with_allowlist lim w rootfs name command held (ok allow) = record {
  result = ok (record {
    lim = lim;
    rootfs = rootfs;
    name = name;
    command = command_or_shell w rootfs command;
    allow = allow;
  });
  held = held;
}

module _ (float : Float) (json : Json float.F) (w : World float.F) (flags : Flags float.F) where
  -- Behind `resolveRootfs`, whose arguments begin with the name.
  unfoldable pub with_rootfs :
      Option (Policy float.F) → Limits float.F → Rootfs.World → Resolved → Parsed float.F
  unfolding with_allowlist load_allowlist
  with_rootfs policy lim answers resolved = elim resolved.result [
    | none ↦ record { result = err no_rootfs; held = resolved.held }
    | some (rootfs, []) ↦ record { result = err no_rootfs; held = resolved.held }
    | some (rootfs, name ∷ command) ↦
        with_allowlist lim answers rootfs name command resolved.held
          (load_allowlist flags.allow policy)
  ]

  -- The checks of the limits, then the root filesystem.
  unfoldable pub with_limits :
      Option (Policy float.F) → Settings float.F → Bytes → List Bytes → Parsed float.F
  unfolding with_rootfs check require_scope systemd_scope resolve_rootfs
  with_limits policy s first rest =
      let answers =
        w.rootfs s.image (flags.given (codes "image") || has_image policy) flags.repull in
      let resolved = with_rootfs policy s.lim answers (resolve_rootfs answers first rest) in
      elim (check float s.lim w.cpu_count) [
        | err e ↦ refuse (bad_limits e)
        | ok _ ↦ elim (require_scope float s.lim (systemd_scope float s.lim w.session)) [
          | err e ↦ refuse (bad_limits e)
          | ok _ ↦ resolved
        ]
      ]

  unfoldable pub with_policy : Option (Policy float.F) → List Bytes → Parsed float.F
  unfolding with_limits apply
  with_policy policy [] = refuse no_name
  with_policy policy (first ∷ rest) =
      with_limits policy
        (apply policy flags.given (record { image = flags.image; lim = flags.lim })) first rest

  unfoldable pub parse_flags : Parsed float.F
  unfolding with_policy load_policy
  parse_flags =
      let without = with_policy none flags.positional in
      if bytes_eq flags.config [] then without else elim (load_policy json (w.read flags.config)) [
        | err e ↦ refuse (bad_policy e)
        | ok p ↦ with_policy (some p) flags.positional
      ]

unfoldable pub parse_run_args :
    (float : Float) → Json float.F → World float.F → Option (Flags float.F) → Parsed float.F
unfolding parse_flags
parse_run_args float json w none = refuse bad_flags
parse_run_args float json w (some flags) = parse_flags float json w flags

-- `strings.TrimLeft` of dashes, and what is before "=".
unfoldable pub trim_dashes : Bytes → Bytes
trim_dashes [] = []
trim_dashes (c ∷ s) = let rest = trim_dashes s in if c == b'-' then rest else c ∷ s

unfoldable pub before_equals : Bytes → Bytes
before_equals [] = []
before_equals (c ∷ s) = let rest = before_equals s in if c == b'=' then [] else c ∷ rest

-- `warnFlagAfterName` warns; `known` is what `Lookup` finds.
unfoldable pub warns : (Bytes → Bool) → List Bytes → Bool
unfolding has_prefix trim_dashes before_equals
warns known [] = false
warns known (c ∷ command) = has_prefix c (codes "-") && known (before_equals (trim_dashes c))
