-- ===== src/Box/Chosen.antt =====
-- box.go: the image of the box that `prepareBox` hands out.
use curimata.Common.{◌≡◌, List, [], ◌∷◌, ◌++◌, Bytes}
use curimata.Text.Trim.{trim_space}
use curimata.Box.{directory, BoxDir, World}

-- The state in which the states end, from a first one.
abbrev pub last_state : {Tree : Type 0} → BoxDir Tree → List (BoxDir Tree) → BoxDir Tree
last_state d [] = d
last_state d (e ∷ states) = last_state e states

module _ {Tree : Type 0} (IsOf : Tree → Bytes → Type 0) where
  module _ (w : World Tree) (image : Bytes)
      (trimmed : trim_space (image ++ (10 ∷ [])) ≡ image) where
    -- The rootfs of a state is a tree of the image.
    abbrev pub Holds : BoxDir Tree → Type 0
    Holds d = (t : Tree) × (d.rootfs ≡ directory t) × IsOf t image
