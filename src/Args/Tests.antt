-- ===== src/Args/Tests.antt =====
-- main.go: command lines of "curimata run", with CPUs counted in hundredths.
use curimata.Common.{
  ℕ, ◌*◌, ◌≡◌, refl, true, false, [], ◌∷◌, ◌++◌, none, some, ◌||◌, codes, bytes_eq, ltb, leb, ok,
  err,
}
use curimata.Common.Int.{pos}
use curimata.Box.Remove.{is_box_name}
use curimata.Limits.{Float, scope_missing}
use curimata.Policy.{Policy, Json}
use curimata.Args.{Flags, World, bad_flags, bad_limits, no_rootfs, parse_run_args, warns}
use curimata.Args.Ready.{IsReady, parse_run_args-IsReady}

abbrev hundredths : Float
hundredths = record {
  F = ℕ;
  zero = 0;
  of_ℕ = λ n. n * 100;
  ltb = λ x y. ltb x y;
  leb = λ x y. leb x y;
  quota = λ x. pos (x * 1000);
}

-- A policy file that limits the memory.
abbrev policy : Policy ℕ
policy = record {
  image = [];
  limits = some (record { memory_mib = some (pos 512); pids = none; cpus = none });
  network = none;
}

abbrev json : Json ℕ
json = record {
  decode_string = λ raw. none;
  decode_plain = λ raw. none;
  decode_policy = λ entry raw. some (policy, []);
}

abbrev world : World ℕ
world = record {
  read = λ path. some (codes "{}");
  cpu_count = 4;
  session = true;
  rootfs = λ image chosen repull. record {
    stat = λ path. none;
    locked = true;
    absolute = λ path. none;
    prepared = λ name. some (codes "/boxes/" ++ name);
  };
}

abbrev flags : Flags ℕ
flags = record {
  image = codes "alpine";
  repull = false;
  allow = [];
  config = codes "p.json";
  lim = record { memory_mib = pos 0; pids = pos 0; cpus = 150; no_systemd = false };
  given = λ name. bytes_eq name (codes "cpus") || bytes_eq name (codes "config");
  positional = codes "web" ∷ [];
}

-- The limits of the flags and of the file, the shell, and no network.
parsed : parse_run_args hundredths json world (some flags) ≡ record {
  result = ok (record {
    lim = record { memory_mib = pos 512; pids = pos 0; cpus = 150; no_systemd = false };
    rootfs = codes "/boxes/web";
    name = codes "web";
    command = codes "/bin/sh" ∷ [];
    allow = none;
  });
  held = some (codes "web");
}
unfolding parse_run_args bytes_eq is_box_name
parsed = refl

refused :
    ((parse_run_args hundredths json world none).result ≡ err bad_flags)
    × ((parse_run_args hundredths json (record world { session = false }) (some flags)).result
        ≡ err (bad_limits scope_missing))
    × ((parse_run_args hundredths json world
          (some (record flags { positional = codes ".." ∷ [] }))).result
        ≡ err no_rootfs)
unfolding parse_run_args bytes_eq is_box_name
refused = (refl, refl, refl)

warned :
    (warns (λ name. bytes_eq name (codes "memory")) (codes "--memory=5" ∷ []) ≡ true)
    × (warns (λ name. bytes_eq name (codes "memory")) (codes "-c" ∷ []) ≡ false)
unfolding warns bytes_eq
warned = (refl, refl)

parse_run_args-IsReady_example :
    IsReady hundredths world
      (parse_run_args hundredths json world (some flags)).result
      (parse_run_args hundredths json world (some flags)).held
parse_run_args-IsReady_example = parse_run_args-IsReady hundredths json world (some flags)
