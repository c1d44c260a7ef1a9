-- ===== src/Copy/Links.antt =====
-- box.go: what `copyTree` makes of one entry, with the names that share a file.
use curimata.Common.{
  ℕ, ◌≡◌, refl, ap, inl, inr, Bool, true, false, ◌&&◌, ltb, ◌==◌, List, [], ◌∷◌, Option, none, some,
  if◌then◌else◌, Option-cases, Bytes, ◌%◌,
}
use curimata.Files.{masked, FilePath}
use curimata.Copy.{
  Kind, directory, regular, symlink, fifo, other, Entry, Made, made_directory, made_file, made_link,
  made_fifo, made_at, first_path, State, make,
}
use curimata.Copy.Growth.{attributes, Grows, IsFiled, make-eq-some, make-Grows}

abbrev pub is_regular : Kind → Bool
is_regular regular = true
is_regular directory = false
is_regular symlink = false
is_regular fifo = false
is_regular other = false

-- A file with several names, and whether an entry is a name of the file of an inode.
abbrev pub is_shared : Entry → Bool
is_shared e = is_regular e.kind && ltb 1 e.links

abbrev pub is_inode : Entry → ℕ → ℕ → Bool
is_inode e device inode = (e.device == device) && (e.inode == inode)

-- The first of the entries that are names of one file with several names.
unfoldable pub first_of : List Entry → ℕ → ℕ → Option FilePath
first_of [] device inode = none
first_of (e ∷ es) device inode =
    let rest = first_of es device inode in
    if is_shared e && is_inode e device inode then some e.path else rest

abbrev pub first_from : List (ℕ × ℕ × FilePath) → List Entry → ℕ → ℕ → Option FilePath
first_from firsts es device inode = elim (first_path firsts device inode) [
  | some p ↦ some p
  | none ↦ first_of es device inode
]

-- The files of the source: what an inode of a device holds.
abbrev pub Inodes : Type 0
Inodes = ℕ → ℕ → ℕ × ℕ × Bytes

abbrev pub IsFile : Inodes → Entry → Type 0
IsFile inodes e =
    e.kind ≡ regular → ltb 1 e.links ≡ true → inodes e.device e.inode ≡ (e.mode, e.time, e.body)

abbrev pub made_inode : Inodes → ℕ → ℕ → FilePath → Made
made_inode inodes d i p = made_file p (inodes d i).0 (inodes d i).1 (inodes d i).2

-- The remembered paths hold their files.
abbrev pub IsFirsts : Inodes → State → Type 0
IsFirsts inodes s =
    (d i : ℕ) (p : FilePath)
    → first_path s.firsts d i ≡ some p
    → made_at s.made p ≡ some (made_inode inodes d i p)

-- What an entry is in the copy, before the attributes of the directories are set.
unfoldable pub IsDone : Kind → (ℕ → ℕ → Option FilePath) → State → Entry → Type 0
unfolding attributes
IsDone directory first s e = attributes s.directories e.path ≡ some (e.mode, e.time)
IsDone regular first s e =
    (p : FilePath) × (made_at s.made e.path ≡ some (made_file p e.mode e.time e.body))
    × ((if ltb 1 e.links then first e.device e.inode else some e.path) ≡ some p)
IsDone symlink first s e = made_at s.made e.path ≡ some (made_link e.body)
IsDone fifo first s e = made_at s.made e.path ≡ some (made_fifo (masked (e.mode % 512)))
IsDone other first s e = Unit

pub IsDone-Grows :
    (k : Kind) (first : ℕ → ℕ → Option FilePath) (s t : State) (e : Entry)
    → Grows s t
    → IsDone k first s e
    → IsDone k first t e
unfolding IsDone
IsDone-Grows directory first s t e (h, k) d = k e.path (e.mode, e.time) d
IsDone-Grows regular first s t e (h, k) (p, m, q) =
    (p, h e.path (made_file p e.mode e.time e.body) m, q)
IsDone-Grows symlink first s t e (h, k) d = h e.path (made_link e.body) d
IsDone-Grows fifo first s t e (h, k) d = h e.path (made_fifo (masked (e.mode % 512))) d
IsDone-Grows other first s t e g d = tt

-- Everything that one entry gives.
abbrev pub Stepped : Inodes → State → Entry → State → Type 0
Stepped inodes s e t =
    Grows s t
    × IsFiled t
    × IsFirsts inodes t
    × ((es : List Entry) (d i : ℕ) → first_from t.firsts es d i ≡ first_from s.firsts (e ∷ es) d i)
    × ((es : List Entry) → IsDone e.kind (first_from s.firsts (e ∷ es)) t e)

pub first_of-other :
    (firsts : List (ℕ × ℕ × FilePath)) (e : Entry) (es : List Entry) (d i : ℕ)
    → is_shared e ≡ false
    → first_from firsts es d i ≡ first_from firsts (e ∷ es) d i
unfolding first_of
first_of-other firsts e es d i h = elim (Option-cases (first_path firsts d i)) [
  | inl q ↦ rw (q, first_from, h, first_of) refl
  | inr (p, q) ↦ rw (q, first_from) refl
]

pub made-IsFirsts :
    (inodes : Inodes) (s t : State)
    → Grows s t
    → t.firsts ≡ s.firsts
    → IsFirsts inodes s
    → IsFirsts inodes t
made-IsFirsts inodes s t (g, a) same h d i p q =
    g p (made_inode inodes d i p) (h d i p (rw same at q))

-- A new name that is no directory keeps the records apart.
pub made-IsFiled : (s t : State) → Grows s t → t.directories ≡ s.directories → IsFiled s → IsFiled t
made-IsFiled s t (g, a) same h p v q =
    let (m, k, stood) = h p v (rw same at q) in (m, k, g p (made_directory m k) stood)

module _ (inodes : Inodes) (s : State) (e : Entry) (filed : IsFiled s)
    (firsts : IsFirsts inodes s) where
  -- A new name of an entry that shares no file.
  pub made-Stepped :
      (t : State) (m : Made)
      → is_shared e ≡ false
      → make s e.path m ≡ some t
      → ((es : List Entry)
          → made_at t.made e.path ≡ some m
          → IsDone e.kind (first_from s.firsts (e ∷ es)) t e)
      → Stepped inodes s e t
  made-Stepped t m alone h done =
      let (free, same) = make-eq-some s t e.path m h in
      let (grows, here) = make-Grows s t e.path m h in
      let kept : t.firsts ≡ s.firsts = ap (λ (r : State). r.firsts) same in
      (
        grows,
        made-IsFiled s t grows (ap (λ (r : State). r.directories) same) filed,
        made-IsFirsts inodes s t grows kept firsts,
        (λ es d i. rw kept (first_of-other s.firsts e es d i alone)),
        λ es. done es here,
      )
