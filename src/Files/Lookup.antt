-- ===== src/Files/Lookup.antt =====
-- What stands at a path after a change of the files, and paths inside a directory.
use curimata.Common.{
  ◌≡◌, ◌↔◌, ◌⊎◌, refl, ap, inl, inr, Bool, true, false, not, [], ◌∷◌, none, some, if◌then◌else◌,
  Bool-cases, arith, Bytes, bytes_eq_iff, bytes_eq_refl,
}
use curimata.Files.Paths.{parent}
use curimata.Files.{
  FilePath, path_eq, below, inside, Node, Files, stored, node, keep, put, take_away,
}

pub path_eq_refl : (p : FilePath) → path_eq p p ≡ true
unfolding path_eq
path_eq_refl [] = refl
path_eq_refl (c ∷ p) = rw (bytes_eq_refl c, path_eq_refl p) refl

path_eq→eq : (p q : FilePath) → path_eq p q ≡ true → p ≡ q
unfolding path_eq
path_eq→eq [] [] h = refl
path_eq→eq [] (d ∷ q) h = cc
path_eq→eq (c ∷ p) [] h = cc
path_eq→eq (c ∷ p) (d ∷ q) h =
    let first : c ≡ d = (bytes_eq_iff c d).0 (ground arith) in
    let rest : p ≡ q = path_eq→eq p q (ground arith) in cc

pub path_eq_iff : (p q : FilePath) → (path_eq p q ≡ true) ↔ (p ≡ q)
path_eq_iff p q = (path_eq→eq p q, λ e. rw e (path_eq_refl q))

pub below_refl : (p : FilePath) → below p p ≡ true
unfolding below
below_refl [] = path_eq_refl []
below_refl (c ∷ p) = rw (path_eq_refl (c ∷ p)) refl

pub inside→below : (d q : FilePath) → inside d q ≡ true → below d q ≡ true
unfolding below inside
inside→below d [] h = cc
inside→below d (c ∷ q) h = rw h (ground arith)

pub inside-cons :
    (dir : FilePath) (c : Bytes) (p : FilePath) → below dir p ≡ true → inside dir (c ∷ p) ≡ true
unfolding inside
inside-cons dir c p h = h

pub below-cases :
    (p : FilePath) (c : Bytes) (q : FilePath)
    → below p (c ∷ q) ≡ true
    → (p ≡ c ∷ q) ⊎ (below p q ≡ true)
unfolding below
below-cases p c q h = elim (Bool-cases (path_eq p (c ∷ q))) [
  | inl e ↦ inl (path_eq→eq p (c ∷ q) e)
  | inr e ↦ inr (ground arith)
]

-- What is below something inside a directory is inside the directory.
pub inside-below : (d p q : FilePath) → inside d p ≡ true → below p q ≡ true → inside d q ≡ true
unfolding inside below
inside-below d p [] h k = let e = path_eq→eq p [] k in rw e at h
inside-below d p (c ∷ q) h k = elim (below-cases p c q k) [
  | inl e ↦ rw e at h
  | inr b ↦ inside→below d q (inside-below d p q h b)
]

-- A path stands inside the directory of its first components.
below-cons : (c : Bytes) (p q : FilePath) → below (c ∷ p) q ≡ true → inside p q ≡ true
unfolding inside below path_eq
below-cons c p [] h = cc
below-cons c p (d ∷ q) h = elim (below-cases (c ∷ p) d q h) [
  | inl e ↦ let same : p ≡ q = ap parent e in rw same (below_refl q)
  | inr b ↦ inside→below p q (below-cons c p q b)
]

pub below-parent : (c : Bytes) (p q : FilePath) → below (c ∷ p) q ≡ true → below p q ≡ true
below-parent c p q h = inside→below p q (below-cons c p q h)

inside_irrefl : (p : FilePath) → inside p p ≡ true → ⊥
unfolding inside
inside_irrefl [] h = let q : false ≡ true = h in cc
inside_irrefl (c ∷ p) h = inside_irrefl p (below-cons c p p h)

-- A directory is not inside one below it.
pub below-inside : (p q : FilePath) → below p q ≡ true → inside q p ≡ false
below-inside p q h = elim (Bool-cases (inside q p)) [
  | inr e ↦ e
  | inl e ↦ absurd (inside_irrefl q (inside-below q p q e h))
]

if-same : {A : Type 0} (b : Bool) (x : A) → x ≡ (if b then x else x)
if-same true x = refl
if-same false x = refl

stored-keep :
    (test : FilePath → Bool) (fs : Files) (q : FilePath)
    → stored (keep test fs) q ≡ (if test q then stored fs q else none)
unfolding stored keep
stored-keep test [] q = if-same (test q) none
stored-keep test ((p, n) ∷ fs) q =
    let rest = stored-keep test fs q in
    elim (Bool-cases (path_eq p q)) [
      | inl e ↦
          let same = path_eq→eq p q e in
          elim (Bool-cases (test q)) [
            | inl t ↦ rw (same, t, path_eq_refl q) refl
            | inr f ↦ rw (same, f) (rw f at rest)
          ]
      | inr e ↦ elim (Bool-cases (test p)) [ inl t ↦ rw (t, e) rest | inr f ↦ rw (f, e) rest ]
    ]

pub node-root : (fs after : Files) → node after [] ≡ node fs []
unfolding node
node-root fs after = refl

pub node-put :
    (p : FilePath) (n : Node) (fs : Files) (c : Bytes) (q : FilePath)
    → node (put p n fs) (c ∷ q) ≡ (if path_eq p (c ∷ q) then some n else node fs (c ∷ q))
unfolding node put stored
node-put p n fs c q = elim (Bool-cases (path_eq p (c ∷ q))) [
  | inl e ↦ rw e refl
  | inr e ↦ let kept = stored-keep (λ r. not (path_eq p r)) fs (c ∷ q) in rw e (rw e at kept)
]

pub node-take_away :
    (p : FilePath) (fs : Files) (c : Bytes) (q : FilePath)
    → node (take_away p fs) (c ∷ q) ≡ (if below p (c ∷ q) then none else node fs (c ∷ q))
unfolding node take_away
node-take_away p fs c q =
    let kept = stored-keep (λ r. not (below p r)) fs (c ∷ q) in
    elim (Bool-cases (below p (c ∷ q))) [
      | inl e ↦ rw e (rw e at kept)
      | inr e ↦ rw e (rw e at kept)
    ]
