-- ===== src/Files/Frame.antt =====
-- Changes of the files that stay inside a directory, and those that make no symbolic link.
use curimata.Common.{
  ◌≡◌, refl, sym, ◌∙◌, inl, inr, Bool, true, false, [], ◌∷◌, Option, none, some, if◌then◌else◌,
  Bool-cases, arith, Bytes,
}
use curimata.Files.{
  FilePath, path_eq, below, inside, Node, directory, file, symlink, fifo, Files, node, put,
  take_away, is_directory, is_symlink,
}
use curimata.Files.Paths.{is_name}
use curimata.Files.Lookup.{
  below_refl, below-inside, below-parent, node-root, inside-below, node-put, node-take_away,
}

-- Nothing is changed but inside the directory.
abbrev pub Apart : FilePath → Files → Files → Type 0
Apart dir fs after = (q : FilePath) → inside dir q ≡ false → node after q ≡ node fs q

abbrev pub NoNewLink : Files → Files → Type 0
NoNewLink fs after =
    (q : FilePath) → is_symlink (node fs q) ≡ false → is_symlink (node after q) ≡ false

abbrev pub IsTame : FilePath → Files → Files → Type 0
IsTame dir fs after = Apart dir fs after × NoNewLink fs after

-- No component of the path is a symbolic link, "." or "..".
unfoldable pub IsPlain : Files → FilePath → Type 0
IsPlain fs [] = Unit
IsPlain fs (c ∷ p) = (is_name c ≡ true) × (is_symlink (node fs (c ∷ p)) ≡ false) × IsPlain fs p

-- The path and all above it are directories.
unfoldable pub IsReal : Files → FilePath → Type 0
IsReal fs [] = Unit
IsReal fs (c ∷ p) = (is_name c ≡ true) × (is_directory (node fs (c ∷ p)) ≡ true) × IsReal fs p

pub Apart-refl : (dir : FilePath) (fs : Files) → Apart dir fs fs
Apart-refl dir fs q h = refl

pub Apart-trans : (dir : FilePath) (a b c : Files) → Apart dir a b → Apart dir b c → Apart dir a c
Apart-trans dir a b c h k q o = k q o ∙ h q o

pub IsTame-refl : (dir : FilePath) (fs : Files) → IsTame dir fs fs
IsTame-refl dir fs = (Apart-refl dir fs, λ q h. h)

pub IsTame-trans :
    (dir : FilePath) (a b c : Files) → IsTame dir a b → IsTame dir b c → IsTame dir a c
IsTame-trans dir a b c (h, l) (k, m) = (Apart-trans dir a b c h k, λ q o. m q (l q o))

pub IsPlain-mono :
    (fs after : Files) (p : FilePath) → NoNewLink fs after → IsPlain fs p → IsPlain after p
unfolding IsPlain
IsPlain-mono fs after [] l h = tt
IsPlain-mono fs after (c ∷ p) l (n, s, h) = (n, l (c ∷ p) s, IsPlain-mono fs after p l h)

pub directory-is_symlink : (n : Option Node) → is_directory n ≡ true → is_symlink n ≡ false
directory-is_symlink none h = refl
directory-is_symlink (some (directory m)) h = refl
directory-is_symlink (some (file m s)) h = refl
directory-is_symlink (some (symlink t)) h = cc
directory-is_symlink (some (fifo m)) h = refl

pub IsReal-IsPlain : (fs : Files) (p : FilePath) → IsReal fs p → IsPlain fs p
unfolding IsPlain IsReal
IsReal-IsPlain fs [] h = tt
IsReal-IsPlain fs (c ∷ p) (n, d, h) =
    (n, directory-is_symlink (node fs (c ∷ p)) d, IsReal-IsPlain fs p h)

IsReal-above :
    (dir : FilePath) (fs after : Files) (p : FilePath)
    → Apart dir fs after
    → below p dir ≡ true
    → IsReal fs p
    → IsReal after p
unfolding IsReal
IsReal-above dir fs after [] h b r = tt
IsReal-above dir fs after (c ∷ p) h b (n, d, r) =
    let same = h (c ∷ p) (below-inside (c ∷ p) dir b) in
    (n, rw same d, IsReal-above dir fs after p h (below-parent c p dir b) r)

-- A directory stays real if the files are only changed inside it.
pub IsReal-Apart :
    (dir : FilePath) (fs after : Files) → Apart dir fs after → IsReal fs dir → IsReal after dir
IsReal-Apart dir fs after h r = IsReal-above dir fs after dir h (below_refl dir) r

below→path_eq :
    (p : FilePath) (c : Bytes) (q : FilePath) → below p (c ∷ q) ≡ false → path_eq p (c ∷ q) ≡ false
unfolding below
below→path_eq p c q h = ground arith

either_link :
    (b : Bool) (x y : Option Node)
    → is_symlink x ≡ false
    → is_symlink y ≡ false
    → is_symlink (if b then x else y) ≡ false
either_link true x y h k = h
either_link false x y h k = k

take_away-NoNewLink : (p : FilePath) (fs : Files) → NoNewLink fs (take_away p fs)
take_away-NoNewLink p fs [] h = rw (node-root fs (take_away p fs)) h
take_away-NoNewLink p fs (c ∷ q) h =
    rw (node-take_away p fs c q) (either_link (below p (c ∷ q)) none (node fs (c ∷ q)) refl h)

pub put-NoNewLink :
    (p : FilePath) (n : Node) (fs : Files) → is_symlink (some n) ≡ false → NoNewLink fs (put p n fs)
put-NoNewLink p n fs s [] h = rw (node-root fs (put p n fs)) h
put-NoNewLink p n fs s (c ∷ q) h =
    rw (node-put p n fs c q) (either_link (path_eq p (c ∷ q)) (some n) (node fs (c ∷ q)) s h)

module _ (dir p : FilePath) (fs : Files) (within : inside dir p ≡ true) where
  elsewhere : (q : FilePath) → inside dir q ≡ false → below p q ≡ false
  elsewhere q h = elim (Bool-cases (below p q)) [
    | inr e ↦ e
    | inl e ↦ let i = inside-below dir p q within e in absurd (let q = sym i ∙ h in cc)
  ]

  pub put-Apart : (n : Node) → Apart dir fs (put p n fs)
  put-Apart n [] h = node-root fs (put p n fs)
  put-Apart n (c ∷ q) h = rw (node-put p n fs c q, below→path_eq p c q (elsewhere (c ∷ q) h)) refl

  take_away-Apart : Apart dir fs (take_away p fs)
  take_away-Apart [] h = node-root fs (take_away p fs)
  take_away-Apart (c ∷ q) h = rw (node-take_away p fs c q, elsewhere (c ∷ q) h) refl

  pub take_away-IsTame : IsTame dir fs (take_away p fs)
  take_away-IsTame = (take_away-Apart, take_away-NoNewLink p fs)

  pub put-IsTame : (n : Node) → is_symlink (some n) ≡ false → IsTame dir fs (put p n fs)
  put-IsTame n s = (put-Apart n, put-NoNewLink p n fs s)
