-- ===== src/Box/Install.antt =====
-- box.go: what a box holds while and after `prepareBox` runs, whatever fails and wherever it is cut off.
use curimata.Common.{
  ◌≡◌, ◌⊎◌, ap, refl, inl, inr, Bool, true, List, [], ◌∷◌, ◌++◌, Option, none, some, Bytes, All,
  Bool-cases, Option-cases,
}
use curimata.Text.Trim.{trim_space}
use curimata.Box.{
  Rootfs, absent, other, directory, BoxDir, Copied, whole, partial, World, cleanup, rename,
  record_image, copy_tree, install_box, is_absent, by_rootfs, keep_box, pull_box, prepare_box,
}

pub Copied-cases :
    {Tree : Type 0} (c : Copied Tree)
    → (c ≡ whole) ⊎ ((forbidden : Bool) × (t : Tree) × (c ≡ partial forbidden t))
Copied-cases whole = inl refl
Copied-cases (partial forbidden t) = inr (forbidden, t, refl)

-- Whether there is a rootfs under the name, and which.
pub Rootfs-cases :
    {Tree : Type 0} (r : Rootfs Tree)
    → (r ≡ absent) ⊎ (r ≡ other) ⊎ ((t : Tree) × (r ≡ directory t))
Rootfs-cases absent = inl refl
Rootfs-cases other = inr (inl refl)
Rootfs-cases (directory t) = inr (inr (t, refl))

module _ {Tree : Type 0} (IsOf : Tree → Bytes → Type 0) where
  -- A rootfs is the tree of the image in the record.
  abbrev pub IsSoundRootfs : Rootfs Tree → Option Bytes → Type 0
  IsSoundRootfs absent image = Unit
  IsSoundRootfs other image = Unit
  IsSoundRootfs (directory t) none = ⊥
  IsSoundRootfs (directory t) (some s) = IsOf t (trim_space s)

  abbrev pub IsSound : BoxDir Tree → Type 0
  IsSound d = IsSoundRootfs d.rootfs d.image

  module _ (w : World Tree) (image : Bytes)
      (trimmed : trim_space (image ++ (10 ∷ [])) ≡ image) where
    unrooted : (d : BoxDir Tree) → d.rootfs ≡ absent → IsSound d
    unrooted d e = rw e tt

    cleanup-IsSound :
        (d : BoxDir Tree) (ts : List Tree) → d.rootfs ≡ absent → All IsSound (cleanup w image d ts)
    unfolding cleanup
    cleanup-IsSound d ts e = elim (Bool-cases w.cleaned) [
      | inl c ↦ rw c (unrooted (record d { temporary = ts }) e, tt)
      | inr c ↦ rw c tt
    ]

    rename-IsSound :
        (d : BoxDir Tree) (ts : List Tree) (tree : Tree)
        → d.rootfs ≡ absent
        → IsSoundRootfs (directory tree) d.image
        → All IsSound (rename w image d ts tree).states
    unfolding rename
    rename-IsSound d ts tree e h = elim (Bool-cases w.renamed) [
      | inl r ↦ rw r (h, tt)
      | inr r ↦ rw r (cleanup-IsSound d ts e)
    ]

    record_image-IsSound :
        (d : BoxDir Tree) (ts : List Tree) (tree : Tree)
        → d.rootfs ≡ absent
        → IsOf tree image
        → All IsSound (record_image w image d ts tree).states
    unfolding record_image
    record_image-IsSound d ts tree e h =
        let torn = record d { image = w.partial_record } in
        let recorded = record d { image = some (image ++ (10 ∷ [])) } in
        elim (Bool-cases w.recorded) [
          | inl r ↦ rw r (
            unrooted torn e,
            (unrooted recorded e, rename-IsSound recorded ts tree e (rw trimmed h)),
          )
          | inr r ↦ rw r (unrooted torn e, cleanup-IsSound torn ts e)
        ]

    copy_tree-IsSound :
        (d : BoxDir Tree) (tree : Tree)
        → d.rootfs ≡ absent
        → IsOf tree image
        → All IsSound (copy_tree w image d tree).states
    unfolding copy_tree
    copy_tree-IsSound d tree e h =
        let copy = record d { temporary = tree ∷ d.temporary } in
        elim (Copied-cases w.copied) [
          | inl c ↦
              rw (c, copy_tree) (unrooted copy e, record_image-IsSound copy d.temporary tree e h)
          | inr (forbidden, t, c) ↦
              let torn = record d { temporary = t ∷ d.temporary } in
              rw (c, copy_tree) (unrooted torn e, cleanup-IsSound torn d.temporary e)
        ]

    install_box-IsSound :
        (d : BoxDir Tree) (tree : Tree)
        → IsOf tree image
        → All IsSound (install_box w image d tree).states
    unfolding install_box
    install_box-IsSound d tree h = elim (Bool-cases w.made_directory) [
      | inr m ↦ rw m tt
      | inl m ↦ elim (Rootfs-cases d.rootfs) [
        | inr (inl o) ↦ rw (m, o) tt
        | inr (inr (t, o)) ↦ rw (m, o) tt
        | inl o ↦ elim (Bool-cases w.made_temporary) [
          | inr n ↦ rw (m, o, n) tt
          | inl n ↦
              let a : is_absent d.rootfs ≡ true = rw o refl in
              let made = record d { temporary = w.empty ∷ d.temporary } in
              rw (m, a, n) (unrooted made o, copy_tree-IsSound d tree o h)
        ]
      ]
    ]

    pull_box-IsSound :
        (d : BoxDir Tree)
        → ((tree : Tree) → w.pulled ≡ some tree → IsOf tree image)
        → All IsSound (pull_box w image d).states
    unfolding pull_box
    pull_box-IsSound d pulls = elim (Option-cases w.pulled) [
      | inl p ↦ rw (p, pull_box) tt
      | inr (tree, p) ↦ rw (p, pull_box) (install_box-IsSound d tree (pulls tree p))
    ]

    pub prepare_box_new :
        (d : BoxDir Tree) (chosen repull : Bool)
        → (d.rootfs ≡ absent) ⊎ (d.rootfs ≡ other)
        → prepare_box w image d chosen repull ≡ pull_box w image d
    unfolding prepare_box
    prepare_box_new d chosen repull (inl e) =
        ap
          (λ r.
            by_rootfs r (record { states = []; result = keep_box w image d chosen repull })
              (pull_box w image d))
          e
    prepare_box_new d chosen repull (inr e) =
        ap
          (λ r.
            by_rootfs r (record { states = []; result = keep_box w image d chosen repull })
              (pull_box w image d))
          e

    pub prepare_box_old :
        (d : BoxDir Tree) (t : Tree) (chosen repull : Bool)
        → d.rootfs ≡ directory t
        → prepare_box w image d chosen repull
          ≡ record { states = []; result = keep_box w image d chosen repull }
    unfolding prepare_box
    prepare_box_old d t chosen repull e = rw (e, prepare_box) refl

    -- Each state that a box goes through while it is prepared is sound, whatever fails and wherever the run
    -- is cut off: there is no rootfs without a whole tree of the image that the record names. The image's
    -- name has no white space around it, and what `pullRootfs` gives is a tree of the image.
    pub prepare_box-IsSound :
        (d : BoxDir Tree) (chosen repull : Bool)
        → ((tree : Tree) → w.pulled ≡ some tree → IsOf tree image)
        → All IsSound (prepare_box w image d chosen repull).states
    prepare_box-IsSound d chosen repull pulls = elim (Rootfs-cases d.rootfs) [
      | inr (inr (t, e)) ↦ rw (prepare_box_old d t chosen repull e) tt
      | inl e ↦ rw (prepare_box_new d chosen repull (inl e)) (pull_box-IsSound d pulls)
      | inr (inl e) ↦ rw (prepare_box_new d chosen repull (inr e)) (pull_box-IsSound d pulls)
    ]
