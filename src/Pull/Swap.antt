-- ===== src/Pull/Swap.antt =====
-- image.go: the tree of an image is replaced as a whole.
use curimata.Common.{
  ◌≡◌, ◌⊎◌, refl, sym, ◌∙◌, inl, inr, Bool, true, false, not, ◌&&◌, List, [], ◌∷◌, ◌++◌, Option,
  some, Bytes, All, Bool-cases, ok, append_assoc, append-nil,
}
use curimata.Pull.{
  Tree, absent, part, layers, Cache, PullError, not_installed, not_removed, bad_layer, not_cleared,
  not_created, World, Pulled, is_directory, before, stop, removed, has_digest, write_stamp, install,
  extract, download, update, pull_rootfs,
}

abbrev pub last_state : {Layer : Type 0} → Cache Layer → List (Cache Layer) → Cache Layer
last_state d [] = d
last_state d (s ∷ ss) = last_state s ss

module _ {Layer : Type 0} (c : Cache Layer) (ls : List Layer) where
  -- The old tree with its digest, no tree or the rest of the old one with the old digest, or the new tree.
  abbrev pub IsSwap : Cache Layer → Type 0
  IsSwap s =
      ((s.rootfs ≡ c.rootfs) × (s.stamp ≡ c.stamp))
      ⊎ ((s.rootfs ≡ part) ⊎ (s.rootfs ≡ absent)) × (s.stamp ≡ c.stamp)
      ⊎ (s.rootfs ≡ layers ls)

  -- A success ends with the new tree and its digest, and nothing beside it.
  abbrev pub IsComplete : Bytes → Pulled Layer → Type 0
  IsComplete digest p =
      All IsSwap p.states
      × ((d : Cache Layer)
          → p.result ≡ ok tt
          → last_state d p.states
            ≡ record { rootfs = layers ls; temporary = absent; stamp = some (digest ++ (10 ∷ [])) })

  before-IsComplete :
      (digest : Bytes) (s : Cache Layer) (p : Pulled Layer)
      → IsSwap s
      → IsComplete digest p
      → IsComplete digest (before s p)
  before-IsComplete digest s p h (hs, done) = ((h, hs), λ d e. done s e)

  stop-IsComplete : (digest : Bytes) (e : PullError) → IsComplete digest (stop e)
  stop-IsComplete digest e = (tt, λ d q. cc)

  module _ (w : World Layer) (digest : Bytes) where
    old : (t : Tree Layer) → IsSwap (record c { temporary = t })
    old t = inl (refl, refl)

    write_stamp-IsComplete :
        (s : Option Bytes)
        → IsComplete digest
            (write_stamp w digest (record { rootfs = layers ls; temporary = absent; stamp = s }))
    unfolding write_stamp
    write_stamp-IsComplete s = elim (Bool-cases w.stamped) [
      | inl e ↦ rw (e, write_stamp) ((inr (inr refl), (inr (inr refl), tt)), λ d q. refl)
      | inr e ↦ rw (e, write_stamp) ((inr (inr refl), tt), λ d q. cc)
    ]

    install-IsComplete : IsComplete digest (install w digest (record c { temporary = layers ls }))
    unfolding install
    install-IsComplete =
        let torn = record c { rootfs = part; temporary = layers ls } in
        let gone = record c { rootfs = absent; temporary = layers ls } in
        let swapped = record c { rootfs = layers ls; temporary = absent } in
        elim (Bool-cases w.removed_old) [
          | inr r ↦
              rw (r, install)
                (before-IsComplete digest torn (stop not_removed) (inr (inl (inl refl, refl)))
                  (stop-IsComplete digest not_removed))
          | inl r ↦ elim (Bool-cases w.renamed) [
            | inr n ↦
                rw (r, n, install)
                  (before-IsComplete digest torn (before gone (stop not_installed))
                    (inr (inl (inl refl, refl)))
                    (before-IsComplete digest gone (stop not_installed) (inr (inl (inr refl, refl)))
                      (stop-IsComplete digest not_installed)))
            | inl n ↦
                rw (r, n, install)
                  (before-IsComplete digest torn
                    (before gone (before swapped (write_stamp w digest swapped)))
                    (inr (inl (inl refl, refl)))
                    (before-IsComplete digest gone (before swapped (write_stamp w digest swapped))
                      (inr (inl (inr refl, refl)))
                      (before-IsComplete digest swapped (write_stamp w digest swapped)
                        (inr (inr refl)) (write_stamp-IsComplete c.stamp))))
          ]
        ]

    extract-IsComplete :
        (done rest : List Layer)
        → done ++ rest ≡ ls
        → IsComplete digest (extract w digest c done rest)
    unfolding extract
    extract-IsComplete done [] e =
        let all : done ≡ ls = sym (append-nil done) ∙ e in rw all install-IsComplete
    extract-IsComplete done (l ∷ rest) e =
        let next = done ++ (l ∷ []) in
        let more = extract-IsComplete next rest (append_assoc done (l ∷ []) rest ∙ e) in
        let torn = record c { temporary = part } in
        elim (Bool-cases (w.extracts l)) [
          | inl x ↦ rw x (
              before-IsComplete digest torn
                (before (record c { temporary = layers next }) (extract w digest c next rest))
                (old part)
                (before-IsComplete digest (record c { temporary = layers next })
                  (extract w digest c next rest) (old (layers next)) more))
          | inr x ↦
              let left = record c { temporary = removed w.removed_temporary } in
              rw x (
                before-IsComplete digest torn (before left (stop bad_layer)) (old part) (
                  before-IsComplete digest left (stop bad_layer) (old (removed w.removed_temporary))
                    (stop-IsComplete digest bad_layer)))
        ]

    download-IsComplete : IsComplete digest (download w digest c ls)
    unfolding download
    download-IsComplete =
        let cleared = record c { temporary = removed w.cleared } in
        let fresh = record c { temporary = layers [] } in
        elim (Bool-cases w.cleared) [
          | inr x ↦ rw x (
              before-IsComplete digest (record c { temporary = removed false }) (stop not_cleared)
                (old (removed false)) (stop-IsComplete digest not_cleared))
          | inl x ↦ elim (Bool-cases w.created) [
            | inr y ↦
                rw (x, y)
                  (before-IsComplete digest (record c { temporary = removed true })
                    (stop not_created) (old (removed true)) (stop-IsComplete digest not_created))
            | inl y ↦
                rw (x, y)
                  (before-IsComplete digest (record c { temporary = removed true })
                    (before fresh (extract w digest c [] ls)) (old (removed true))
                    (before-IsComplete digest fresh (extract w digest c [] ls) (old (layers []))
                      (extract-IsComplete [] ls refl)))
          ]
        ]

-- A pull that has to download the layers of a manifest leaves, wherever it is cut off, the old tree with its
-- digest, or no tree or a rest of the old one with the old digest, or the tree of all the layers in their order;
-- and if it succeeds it ends with that tree, the digest of the manifest and no temporary tree.
pub pull_rootfs-IsComplete :
    {Layer : Type 0} (w : World Layer) (c : Cache Layer) (force : Bool) (digest : Bytes)
    (ls : List Layer)
    → w.manifest ≡ some digest
    → w.layer_list ≡ some ls
    → (not force && (has_digest c.stamp digest && is_directory c.rootfs)) ≡ false
    → IsComplete c ls digest (pull_rootfs w c force)
unfolding pull_rootfs update
pull_rootfs-IsComplete w c force digest ls m l f =
    rw (m, pull_rootfs, f, l, update) (download-IsComplete c ls w digest)
