-- ===== src/Rootfs/Tests.antt =====
-- main.go: rootfs directories and boxes.
use curimata.Common.{
  ◌≡◌, refl, Bool, true, false, [], ◌∷◌, ◌++◌, Option, none, some, if◌then◌else◌, ◌||◌, Bytes,
  codes, bytes_eq,
}
use curimata.Box.Remove.{is_box_name}
use curimata.Rootfs.{World, default_shell, resolve_rootfs}

-- A directory r with usr and bin/bash in it.
abbrev stat : Bytes → Option Bool
stat path =
    if bytes_eq path (codes "r") || bytes_eq path (codes "r/usr")
    then some true
    else if bytes_eq path (codes "r/bin/bash")
    then some false
    else none

abbrev world : World
world = record {
  stat = stat;
  locked = true;
  absolute = λ path. some (codes "/" ++ path);
  prepared = λ name. some (codes "/boxes/" ++ name);
}

resolved :
    (resolve_rootfs world (codes "r") (codes "web" ∷ codes "sh" ∷ []) ≡ record {
      result = some (codes "/r", codes "web" ∷ codes "sh" ∷ []);
      held = some (codes "web");
    })
    × (resolve_rootfs world (codes "web") (codes "sh" ∷ []) ≡ record {
      result = some (codes "/boxes/web", codes "web" ∷ codes "sh" ∷ []);
      held = some (codes "web");
    })
    × (resolve_rootfs world (codes "r") (codes ".." ∷ []) ≡ record { result = none; held = none })
unfolding resolve_rootfs bytes_eq is_box_name
resolved = (refl, refl, refl)

shells :
    (default_shell stat (codes "r") ≡ codes "/bin/bash")
    × (default_shell stat (codes "q") ≡ codes "/bin/sh")
unfolding default_shell bytes_eq
shells = (refl, refl)
