-- ===== src/Untar/Modes.antt =====
-- image.go: the modes that `untar` sets at the end.
use curimata.Common.{
  ℕ, suc, ◌≡◌, refl, inl, inr, Bool, true, false, ◌||◌, List, [], ◌∷◌, ◌++◌, Option, none, some,
  Option-cases, Bool-cases, All, All-append, All-mono, bytes_eq, ok, Result-cases, ◌∙◌,
}
use curimata.Text.Search.{has_prefix, cut_prefix}
use curimata.Files.{
  exact, FilePath, path_eq, node, below, inside, Node, directory, file, symlink, fifo, Files, put,
  is_directory, is_symlink,
}
use curimata.Files.Paths.{base}
use curimata.Files.Resolve.{follow}
use curimata.Files.Calls.{call, lstat, set_mode, chmod}
use curimata.Files.Lookup.{path_eq_iff, inside→below, node-put, node-root}
use curimata.Files.Frame.{
  put-NoNewLink, Apart, NoNewLink, IsPlain, IsPlain-mono, IsReal, IsReal-IsPlain, IsReal-Apart,
}
use curimata.Files.Reach.{follow-Leads}
use curimata.Files.Changes.{call-files, and_then-files}
use curimata.Untar.{
  SecureJoin, TypeFlag, type_dir, type_reg, type_symlink, type_link, type_fifo, type_char,
  type_block, type_other, Entry, Applied, no_mode, join_inside, asked, apply_at, apply_entry,
  apply_entries, set_modes, finish, untar, whiteout, marker, opaque,
}
use curimata.Untar.Targets.{IsSecure, is_ordinary, join_inside-below}
use curimata.Untar.Loop.{apply_entry-Apart, apply_entries-Apart}

-- Nothing is changed but the directory and what is inside it.
abbrev pub Outside : FilePath → Files → Files → Type 0
Outside dir fs after = (q : FilePath) → below dir q ≡ false → node after q ≡ node fs q

abbrev IsKept : FilePath → Files → Files → Type 0
IsKept dir fs after = Outside dir fs after × NoNewLink fs after

IsKept-refl : (dir : FilePath) (fs : Files) → IsKept dir fs fs
IsKept-refl dir fs = (λ q b. refl, λ q l. l)

IsKept-trans : (dir : FilePath) (a b c : Files) → IsKept dir a b → IsKept dir b c → IsKept dir a c
IsKept-trans dir a b c (h, l) (k, m) = (λ q o. k q o ∙ h q o, λ q o. m q (l q o))

not-inside : (dir q : FilePath) → below dir q ≡ false → inside dir q ≡ false
not-inside dir q h = elim (Bool-cases (inside dir q)) [
  | inr e ↦ e
  | inl e ↦ let b = inside→below dir q e in cc
]

put-Outside :
    (dir p : FilePath) (fs : Files) (n : Node) → below dir p ≡ true → Outside dir fs (put p n fs)
put-Outside dir p fs n b [] o = node-root fs (put p n fs)
put-Outside dir p fs n b (c ∷ q) o = elim (Bool-cases (path_eq p (c ∷ q))) [
  | inr e ↦ rw (node-put p n fs c q, e) refl
  | inl e ↦
      let same = (path_eq_iff p (c ∷ q)).0 e in
      let f = rw same at b in absurd (let g : true ≡ false = cc in cc)
]

put-IsKept :
    (dir p : FilePath) (fs : Files) (n : Node)
    → below dir p ≡ true
    → is_symlink (some n) ≡ false
    → IsKept dir fs (put p n fs)
put-IsKept dir p fs n b s = (put-Outside dir p fs n b, put-NoNewLink p n fs s)

pub Apart-Outside : (dir : FilePath) (fs after : Files) → Apart dir fs after → Outside dir fs after
Apart-Outside dir fs after h q b = h q (not-inside dir q b)

-- A mode changes nothing but its directory.
set_mode-IsKept :
    (dir p : FilePath) (fs : Files) (mode : ℕ) (o : Option Node) (after : Files)
    → below dir p ≡ true
    → set_mode fs p mode o ≡ ok after
    → IsKept dir fs after
unfolding set_mode
set_mode-IsKept dir p fs mode none after b e = cc
set_mode-IsKept dir p fs mode (some (directory m)) after b e =
    let q : after ≡ put p (directory (exact mode)) fs = cc in
    rw q (put-IsKept dir p fs (directory (exact mode)) b refl)
set_mode-IsKept dir p fs mode (some (file m s)) after b e =
    let q : after ≡ put p (file (exact mode) s) fs = cc in
    rw q (put-IsKept dir p fs (file (exact mode) s) b refl)
set_mode-IsKept dir p fs mode (some (symlink t)) after b e = cc
set_mode-IsKept dir p fs mode (some (fifo m)) after b e =
    let q : after ≡ put p (fifo (exact mode)) fs = cc in
    rw q (put-IsKept dir p fs (fifo (exact mode)) b refl)

-- A recorded directory in `dir`, on a path without links.
abbrev AtRecord : FilePath → Files → FilePath × ℕ → Type 0
AtRecord dir fs m = (below dir m.0 ≡ true) × IsPlain fs m.0

module _ (n : ℕ) (dir : FilePath) where
  chmod-IsKept :
      (fs : Files) (p : FilePath) (mode : ℕ)
      → below dir p ≡ true
      → IsPlain fs p
      → IsKept dir fs (call no_mode fs (chmod n fs p mode)).0
  unfolding chmod
  chmod-IsKept fs p mode b h =
      call-files (IsKept dir fs) no_mode fs (chmod n fs p mode) (IsKept-refl dir fs) (λ after e.
        let led = follow-Leads n fs p h in
        elim (Result-cases (follow n fs p)) [
          | inr (x, q) ↦ let bad = rw (q, chmod) at e in cc
          | inl (at, q) ↦
              let same : at ≡ p = rw q at led in
              set_mode-IsKept dir p fs mode (node fs p) after b (rw (q, chmod, same) at e)
        ])

  -- The recorded paths are in the directory, and no component is a link.
  pub set_modes-IsKept :
      (modes : List (FilePath × ℕ)) (fs : Files)
      → All (AtRecord dir fs) modes
      → IsKept dir fs (set_modes n modes fs).0
  unfolding set_modes
  set_modes-IsKept [] fs h = IsKept-refl dir fs
  set_modes-IsKept ((p, mode) ∷ modes) fs ((b, h), hs) =
      let rest = set_modes-IsKept modes fs hs in
      elim (Result-cases (lstat n fs p)) [
        | inr (x, e) ↦ rw (e, set_modes) rest
        | inl (x, e) ↦ elim (Bool-cases (is_directory (some x))) [
          | inr d ↦ rw (e, set_modes, d) rest
          | inl d ↦
              rw (e, set_modes, d)
                (and_then-files (IsKept dir fs) (IsKept dir fs)
                  (call no_mode fs (chmod n fs p mode)) (λ after. set_modes n modes after)
                  (chmod-IsKept fs p mode b h) (λ after k. k)
                  (λ after k. IsKept-trans dir fs after (set_modes n modes after).0 k (
                    set_modes-IsKept modes after (
                      All-mono (AtRecord dir fs) (AtRecord dir after)
                        (λ m (i, l). (i, IsPlain-mono fs after m.0 k.1 l)) modes hs))))
        ]
      ]

All-pair :
    (dir : FilePath) (fs : Files) (modes : List (FilePath × ℕ))
    → All (λ m. below dir m.0 ≡ true) modes
    → All (λ m. IsPlain fs m.0) modes
    → All (AtRecord dir fs) modes
All-pair dir fs [] b h = tt
All-pair dir fs (m ∷ modes) (b, bs) (h, hs) = ((b, h), All-pair dir fs modes bs hs)

asked-below :
    (dir t : FilePath) (flag : TypeFlag) (mode : ℕ)
    → below dir t ≡ true
    → All (λ m. below dir m.0 ≡ true) (asked flag t mode)
asked-below dir t type_dir mode b = (b, tt)
asked-below dir t type_reg mode b = tt
asked-below dir t type_symlink mode b = tt
asked-below dir t type_link mode b = tt
asked-below dir t type_fifo mode b = tt
asked-below dir t type_char mode b = tt
asked-below dir t type_block mode b = tt
asked-below dir t type_other mode b = tt

finish-Outside :
    (n : ℕ) (dir : FilePath) (fs : Files) (l : Applied)
    → Outside dir fs l.0.0
    → All (λ m. below dir m.0 ≡ true) l.1
    → All (λ m. IsPlain l.0.0 m.0) l.1
    → Outside dir fs (finish n l).0
unfolding finish
finish-Outside n dir fs ((after, some x), modes) o b h = o
finish-Outside n dir fs ((after, none), modes) o b h =
    let (k, l) = set_modes-IsKept n dir modes after (All-pair dir after modes b h) in
    λ q c. k q c ∙ o q c

module _ (secure_join : SecureJoin) (secure : IsSecure secure_join) (n : ℕ) (dir : FilePath) where
  apply_at-asked :
      (fs : Files) (e : Entry) (t : FilePath)
      → below dir t ≡ true
      → All (λ m. below dir m.0 ≡ true) (apply_at secure_join (suc n) dir fs e t).1
  unfolding apply_at
  apply_at-asked fs e t b = elim (Option-cases (cut_prefix (base e.name) whiteout)) [
    | inl q ↦ rw (q, apply_at) (asked-below dir t e.flag e.mode b)
    | inr (v, q) ↦ rw (q, apply_at) tt
  ]

  apply_entry-asked :
      (fs : Files) (e : Entry)
      → IsReal fs dir
      → All (λ m. below dir m.0 ≡ true) (apply_entry secure_join (suc n) dir fs e).1
  unfolding apply_entry
  apply_entry-asked fs e real =
      elim (Bool-cases (bytes_eq e.name [] || has_prefix (base e.name) marker)) [
        | inl s ↦ elim (Bool-cases (bytes_eq (base e.name) opaque)) [
          | inl m ↦ rw (s, m) tt
          | inr m ↦ rw (s, m) tt
        ]
        | inr s ↦ elim (Option-cases (join_inside secure_join fs dir e.name)) [
          | inl j ↦ rw (s, j, apply_entry) tt
          | inr (t, j) ↦
              rw (s, j, apply_entry)
                (apply_at-asked fs e t
                  (join_inside-below secure_join secure fs dir (IsReal-IsPlain fs dir real) e.name t
                    j).0)
        ]
      ]

  apply_entries-asked :
      (es : List Entry) (broken : Bool) (fs : Files) (modes : List (FilePath × ℕ))
      → IsReal fs dir
      → All (λ e. is_ordinary e ≡ true) es
      → All (λ m. below dir m.0 ≡ true) modes
      → All (λ m. below dir m.0 ≡ true) (apply_entries secure_join (suc n) dir es broken fs modes).1
  unfolding apply_entries
  apply_entries-asked [] broken fs modes real h b = b
  apply_entries-asked (e ∷ es) broken fs modes real (o, h) b =
      let applied = apply_entry secure_join (suc n) dir fs e in
      elim (Option-cases applied.0.1) [
        | inr (x, q) ↦ rw (q, apply_entries) b
        | inl q ↦
            rw (q, apply_entries)
              (apply_entries-asked es broken applied.0.0 (applied.1 ++ modes)
                (IsReal-Apart dir fs applied.0.0
                  (apply_entry-Apart secure_join secure n dir fs real e o) real)
                h
                (All-append (λ m. below dir m.0 ≡ true) applied.1 modes
                  (apply_entry-asked fs e real) b))
      ]

  -- An archive whose entries neither replace the root nor delete "." or "..", and whose recorded directories
  -- stand behind no link once all entries are unpacked, changes nothing outside the real directory `dir`,
  -- whether the unpacking ends in an error or not.
  pub untar-Outside :
      (es : List Entry) (broken : Bool) (fs : Files)
      → IsReal fs dir
      → All (λ e. is_ordinary e ≡ true) es
      → All
          (λ m. IsPlain (apply_entries secure_join (suc n) dir es broken fs []).0.0 m.0)
          (apply_entries secure_join (suc n) dir es broken fs []).1
      → Outside dir fs (untar secure_join (suc n) dir es broken fs).0
  unfolding untar
  untar-Outside es broken fs real h l =
      let end = apply_entries secure_join (suc n) dir es broken fs [] in
      finish-Outside (suc n) dir fs end
        (Apart-Outside dir fs end.0.0
          (apply_entries-Apart secure_join secure n dir es broken fs [] real h))
        (apply_entries-asked es broken fs [] real h tt) l
