-- ===== src/Container/Tests.antt =====
-- container.go and `createContainer` with a helper.
use curimata.Common.{
  ltb, leb, ℕ, ◌≡◌, refl, true, false, [], ◌∷◌, none, some, bytes_eq, codes, ok, err,
}
use curimata.Common.Int.{pos}
use curimata.Text.Fields.{split}
use curimata.Text.Number.{itoa, atoi}
use curimata.Text.Trim.{trim_space}
use curimata.IdMaps.{SubIdFile, no_entry}
use curimata.Limits.{Float, Limits}
use curimata.Container.{
  Config, NetnsHolder, container_config, container_env, create_container, exists_already, created,
  create, clear, create_failed, not_cleared,
}
use curimata.Container.Confined.{IsConfined, container_config-IsConfined}

-- Numbers that stand for CPUs.
abbrev float : Float
float = record {
  F = ℕ;
  zero = 0;
  of_ℕ = λ n. n;
  ltb = λ a b. ltb a b;
  leb = λ a b. leb a b;
  quota = λ n. pos n;
}

abbrev file : SubIdFile
file = record { lines = codes "u:100:5" ∷ []; complete = true }

abbrev holder : NetnsHolder
holder = record { user_path = codes "/proc/7/ns/user"; net_path = codes "/proc/7/ns/net" }

abbrev lim : Limits ℕ
lim = record { memory_mib = pos 0; pids = pos 0; cpus = 0; no_systemd = false }

container_config-IsConfined_example : IsConfined (some holder) (
    container_config float
      (some (codes "u"))
      1
      1
      (some file)
      (some file)
      (codes "/r")
      (codes "b")
      lim
      true
      (some holder))
container_config-IsConfined_example =
    container_config-IsConfined float (some (codes "u")) 1 1 (some file) (some file) (codes "/r")
      (codes "b") lim true (some holder)

no_mapping :
    container_config float
      (some (codes "v"))
      1
      1
      (some file)
      (some file)
      (codes "/r")
      (codes "b")
      lim
      true
      none
    ≡ err (no_entry (codes "v"))
unfolding container_config bytes_eq split trim_space itoa atoi
no_mapping = refl

plain_environment :
    container_env [] false
    ≡ codes "PATH=/usr/local/sbin:/usr/local/bin:/usr/sbin:/usr/bin:/sbin:/bin"
      ∷ codes "TERM=xterm"
      ∷ codes "HOME=/root"
      ∷ []
unfolding container_env bytes_eq
plain_environment = refl

-- State that is left of a container is cleared, and the call repeated once.
second_call :
    (c : Config)
    → (create_container (ok c) true exists_already true created
        ≡ record { actions = create ∷ clear ∷ create ∷ []; result = ok tt })
      × (create_container (ok c) true exists_already true exists_already
          ≡ record { actions = create ∷ clear ∷ create ∷ []; result = err create_failed })
      × (create_container (ok c) true exists_already false created
          ≡ record { actions = create ∷ clear ∷ []; result = err not_cleared })
unfolding create_container
second_call c = (refl, refl, refl)
