-- ===== src/Untar/Targets.antt =====
-- image.go: where `joinInside` leads.
use curimata.Common.{
  ◌≡◌, refl, inl, inr, Bool, true, false, not, ◌&&◌, [], ◌∷◌, Option, none, some, Option-cases,
  arith, Bytes, bytes_eq,
}
use curimata.Text.Search.{cut_prefix, cut_prefix-append}
use curimata.Files.{FilePath, below, Files}
use curimata.Files.Paths.{
  is_name, is_dot, is_dot_dot, parent, parts, clean_rooted, base, clean_parts-base,
  clean_parts-names,
}
use curimata.Files.Lookup.{inside→below, inside-cons}
use curimata.Files.Frame.{IsPlain}
use curimata.Untar.{
  SecureJoin, TypeFlag, type_dir, type_reg, type_symlink, type_link, type_fifo, type_char,
  type_block, type_other, Entry, join_parts, join_inside, whiteout,
}

-- SecureJoin resolves every link, and stays below the root.
abbrev pub IsSecure : SecureJoin → Type 0
IsSecure secure_join =
    (fs : Files) (root p r : FilePath)
    → IsPlain fs root
    → secure_join fs root p ≡ some r
    → (below root r ≡ true) × IsPlain fs r

unfoldable pub replaces : TypeFlag → Bool
replaces type_dir = false
replaces type_reg = true
replaces type_symlink = true
replaces type_link = true
replaces type_fifo = true
replaces type_char = false
replaces type_block = false
replaces type_other = false

-- Only an entry that replaces nothing may name the root.
unfoldable pub keeps_root : FilePath → TypeFlag → Bool
unfolding replaces
keeps_root [] flag = not (replaces flag)
keeps_root (c ∷ p) flag = true

-- A whiteout names what it deletes: it is not ".wh.", ".wh.." or ".wh...".
unfoldable pub names_victim : Option Bytes → Bool
unfolding is_name
names_victim none = true
names_victim (some victim) = is_name victim

unfoldable pub is_ordinary : Entry → Bool
unfolding keeps_root names_victim clean_rooted base
is_ordinary e =
    names_victim (cut_prefix (base e.name) whiteout) && keeps_root (clean_rooted e.name) e.flag

module _ (secure_join : SecureJoin) (secure : IsSecure secure_join) (fs : Files) (dir : FilePath)
    (plain : IsPlain fs dir) where
  join_parts-target :
      (c : Bytes) (p t : FilePath)
      → is_name c ≡ true
      → join_parts secure_join fs dir (c ∷ p) ≡ some t
      → (r : FilePath) × (t ≡ c ∷ r) × (below dir r ≡ true) × IsPlain fs r
  unfolding join_parts is_name
  join_parts-target c p t named h =
      let dot : is_dot c ≡ false = ground arith in
      let dots : is_dot_dot c ≡ false = ground arith in
      elim (Option-cases (secure_join fs dir p)) [
        | inl e ↦ let bad = rw (e, join_parts) at h in cc
        | inr (r, e) ↦
            let (b, k) = secure fs dir p r plain e in
            let out : some (c ∷ r) ≡ some t = rw (e, join_parts, dot, dots) at h in (r, cc, b, k)
      ]

  -- The target of an entry that does not name the root stands in a resolved directory below `dir`, with the
  -- last component of the name as it is.
  pub join_inside-target :
      (name : Bytes) (c : Bytes) (p t : FilePath)
      → clean_rooted name ≡ c ∷ p
      → join_inside secure_join fs dir name ≡ some t
      → (r : FilePath) × (t ≡ c ∷ r) × (below dir r ≡ true) × IsPlain fs r
  unfolding join_inside clean_rooted
  join_inside-target name c p t e h =
      let names = clean_parts-names (parts name) in
      join_parts-target c p t (rw e at names).0 (rw e at h)

  pub join_inside-root :
      (name : Bytes) (t : FilePath)
      → clean_rooted name ≡ []
      → join_inside secure_join fs dir name ≡ some t
      → (below dir t ≡ true) × IsPlain fs t
  unfolding join_inside clean_rooted join_parts
  join_inside-root name t e h = secure fs dir [] t plain (rw e at h)

  parent-IsPlain : (t : FilePath) → IsPlain fs t → IsPlain fs (parent t)
  unfolding IsPlain
  parent-IsPlain [] h = tt
  parent-IsPlain (c ∷ p) (named, s, h) = h

  join_parts-below :
      (name : Bytes) (clean t : FilePath)
      → clean_rooted name ≡ clean
      → join_inside secure_join fs dir name ≡ some t
      → (below dir t ≡ true) × IsPlain fs (parent t)
  join_parts-below name [] t q j =
      let (b, h) = join_inside-root name t q j in (b, parent-IsPlain t h)
  join_parts-below name (c ∷ p) t q j =
      let (r, same, b, h) = join_inside-target name c p t q j in
      rw same (inside→below dir (c ∷ r) (inside-cons dir c r b), h)

  -- Whatever the name, the target stands in `dir`, behind no link.
  pub join_inside-below :
      (name : Bytes) (t : FilePath)
      → join_inside secure_join fs dir name ≡ some t
      → (below dir t ≡ true) × IsPlain fs (parent t)
  join_inside-below name t j = join_parts-below name (clean_rooted name) t refl j

-- The clean name of a whiteout ends in its base.
pub whiteout-base :
    (name victim : Bytes)
    → cut_prefix (base name) whiteout ≡ some victim
    → (p : FilePath) × (clean_rooted name ≡ base name ∷ p)
unfolding clean_rooted base is_name bytes_eq
whiteout-base name victim h =
    let shape = cut_prefix-append (base name) whiteout victim h in
    clean_parts-base name (parts name) (rw shape refl) (rw shape refl)
