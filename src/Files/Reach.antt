-- ===== src/Files/Reach.antt =====
-- A path without links leads to itself.
use curimata.Common.{
  ℕ, zero, suc, ◌≡◌, refl, inl, inr, true, false, [], ◌∷◌, Option, none, some, Option-cases,
  Bool-cases, arith, Bytes, Result, ok, err, Result-cases,
}
use curimata.Files.{
  FilePath, Node, directory, file, symlink, fifo, Files, node, is_directory, is_symlink,
}
use curimata.Files.Paths.{is_name, is_dot, is_dot_dot}
use curimata.Files.Resolve.{Errno, enter_name, enter, resolve, follow, locate_in, locate}
use curimata.Files.Frame.{IsPlain, IsReal, directory-is_symlink}

-- The path leads there, if it leads anywhere.
abbrev pub Leads : Result Errno FilePath → FilePath → Type 0
Leads (err e) p = Unit
Leads (ok q) p = q ≡ p

enter_name-Leads :
    (next : FilePath → Result Errno FilePath) (at : FilePath) (c : Bytes) (n : Option Node)
    → is_symlink n ≡ false
    → enter_name next at c n ≡ ok (c ∷ at)
unfolding enter_name
enter_name-Leads next at c none h = refl
enter_name-Leads next at c (some (directory m)) h = refl
enter_name-Leads next at c (some (file m s)) h = refl
enter_name-Leads next at c (some (symlink t)) h = cc
enter_name-Leads next at c (some (fifo m)) h = refl

pub IsReal-directory : (fs : Files) (p : FilePath) → IsReal fs p → is_directory (node fs p) ≡ true
unfolding IsReal node
IsReal-directory fs [] h = refl
IsReal-directory fs (c ∷ p) (n, d, h) = d

module _ (next : FilePath → Result Errno FilePath) (fs : Files) where
  enter-directory :
      (at : FilePath) (c : Bytes)
      → is_name c ≡ true
      → is_symlink (node fs (c ∷ at)) ≡ false
      → is_directory (node fs at) ≡ true
      → enter next fs at c ≡ ok (c ∷ at)
  unfolding enter is_name
  enter-directory at c n s d =
      let dot : is_dot c ≡ false = ground arith in
      let dots : is_dot_dot c ≡ false = ground arith in
      let entered = enter_name-Leads next at c (node fs (c ∷ at)) s in
      elim (Option-cases (node fs at)) [
        | inl e ↦ let q = rw e at d in cc
        | inr (x, e) ↦ rw (e, enter, (rw e at d), dot, dots) entered
      ]

  enter-Leads :
      (at : FilePath) (c : Bytes)
      → is_name c ≡ true
      → is_symlink (node fs (c ∷ at)) ≡ false
      → Leads (enter next fs at c) (c ∷ at)
  unfolding enter
  enter-Leads at c n s = elim (Bool-cases (is_directory (node fs at))) [
    | inl d ↦ rw (enter-directory at c n s d) refl
    | inr d ↦ elim (Option-cases (node fs at)) [
      | inl e ↦ rw (e, enter) tt
      | inr (x, e) ↦ rw (e, enter, (rw e at d)) tt
    ]
  ]

  resolve-Leads : (p : FilePath) → IsPlain fs p → Leads (resolve next fs p) p
  unfolding resolve IsPlain
  resolve-Leads [] h = refl
  resolve-Leads (c ∷ p) (n, s, h) =
      let led = resolve-Leads p h in
      elim (Result-cases (resolve next fs p)) [
        | inr (x, e) ↦ rw e tt
        | inl (at, e) ↦ let same : at ≡ p = rw e at led in rw (e, same) (enter-Leads p c n s)
      ]

  resolve-IsReal : (p : FilePath) → IsReal fs p → resolve next fs p ≡ ok p
  unfolding resolve IsReal
  resolve-IsReal [] h = refl
  resolve-IsReal (c ∷ p) (n, d, h) =
      rw (resolve-IsReal p h)
        (enter-directory p c n (directory-is_symlink (node fs (c ∷ p)) d) (IsReal-directory fs p h))

pub follow-Leads : (n : ℕ) (fs : Files) (p : FilePath) → IsPlain fs p → Leads (follow n fs p) p
unfolding follow
follow-Leads zero fs p h = tt
follow-Leads (suc n) fs p h = resolve-Leads (follow n fs) fs p h

pub follow-IsReal : (n : ℕ) (fs : Files) (p : FilePath) → IsReal fs p → follow (suc n) fs p ≡ ok p
unfolding follow
follow-IsReal n fs p h = resolve-IsReal (follow n fs) fs p h

locate_in-Leads : (fs : Files) (at : FilePath) (c : Bytes) → Leads (locate_in fs at c) (c ∷ at)
unfolding locate_in
locate_in-Leads fs at c = elim (Option-cases (node fs at)) [
  | inl e ↦ rw (e, locate_in) tt
  | inr (x, e) ↦ elim (Bool-cases (is_directory (some x))) [
    | inl d ↦ rw (e, locate_in, d) refl
    | inr d ↦ rw (e, locate_in, d) tt
  ]
]

-- Only what is above the last component must be free of links.
pub locate-Leads :
    (n : ℕ) (fs : Files) (c : Bytes) (p : FilePath)
    → IsPlain fs p
    → Leads (locate n fs (c ∷ p)) (c ∷ p)
unfolding locate
locate-Leads n fs c p h =
    let led = follow-Leads n fs p h in
    elim (Result-cases (follow n fs p)) [
      | inr (x, e) ↦ rw (e, locate) tt
      | inl (at, e) ↦
          let same : at ≡ p = rw e at led in rw (e, locate, same) (locate_in-Leads fs p c)
    ]

pub locate-IsReal :
    (n : ℕ) (fs : Files) (c : Bytes) (p : FilePath)
    → IsReal fs p
    → locate (suc n) fs (c ∷ p) ≡ ok (c ∷ p)
unfolding locate locate_in
locate-IsReal n fs c p h =
    let d = IsReal-directory fs p h in
    elim (Option-cases (node fs p)) [
      | inl e ↦ let q = rw e at d in cc
      | inr (x, e) ↦ rw (follow-IsReal n fs p h, locate, e, locate_in, (rw e at d)) refl
    ]
