-- ===== src/Files/Changes.antt =====
-- What the calls change when the path has no links above its last component.
use curimata.Common.{
  ℕ, suc, ◌≡◌, ◌⊎◌, refl, inl, inr, true, false, [], ◌∷◌, Option, none, some, Option-cases,
  Bool-cases, Bytes, Result, ok, err, Result-cases,
}
use curimata.Files.{
  masked, exact, FilePath, below, Node, directory, Files, node, put, take_away, is_directory,
  is_symlink,
}
use curimata.Files.Resolve.{
  Errno, no_entry, not_directory, file_exists, is_directory_error, too_many_links, locate,
}
use curimata.Files.Calls.{
  absent, remove_all, put_new, create, link_node, link, lstat, stat, found, Outcome, call, and_then,
  make_parent, mkdir_all,
}
use curimata.Files.Lookup.{below-cases, inside-cons, node-take_away}
use curimata.Files.Frame.{
  Apart, IsTame, IsTame-refl, IsTame-trans, Apart-refl, IsPlain, IsPlain-mono, IsReal, put-Apart,
  put-IsTame, take_away-IsTame,
}
use curimata.Files.Reach.{locate-Leads, follow-IsReal, locate-IsReal, IsReal-directory}

-- What holds of the files after a call that fails changes nothing.
pub call-files :
    {E : Type 0} (P : Files → Type 0) (f : Errno → E) (fs : Files) (r : Result Errno Files)
    → P fs
    → ((after : Files) → r ≡ ok after → P after)
    → P (call f fs r).0
call-files P f fs (err e) h k = h
call-files P f fs (ok after) h k = k after refl

pub and_then-files :
    {E : Type 0} (P Q : Files → Type 0) (o : Outcome E) (next : Files → Outcome E)
    → P o.0
    → ((after : Files) → P after → Q after)
    → ((after : Files) → P after → Q (next after).0)
    → Q (and_then o next).0
and_then-files P Q (fs, some e) next h w k = w fs h
and_then-files P Q (fs, none) next h w k = k fs h

absent-eq-ok : (e : Errno) (fs after : Files) → absent e fs ≡ ok after → after ≡ fs
unfolding absent
absent-eq-ok no_entry fs after h = cc
absent-eq-ok not_directory fs after h = cc
absent-eq-ok file_exists fs after h = cc
absent-eq-ok is_directory_error fs after h = cc
absent-eq-ok too_many_links fs after h = cc

put_new-eq-ok :
    (fs : Files) (q : FilePath) (new : Node) (o : Option Node) (after : Files)
    → put_new fs q new o ≡ ok after
    → (after ≡ put q new fs) × (o ≡ none)
unfolding put_new
put_new-eq-ok fs q new none after h = (cc, refl)
put_new-eq-ok fs q new (some x) after h = cc

module _ (n : ℕ) (fs : Files) (c : Bytes) (p : FilePath) (plain : IsPlain fs p) where
  remove_all-eq-ok :
      (after : Files)
      → remove_all n fs (c ∷ p) ≡ ok after
      → (after ≡ fs) ⊎ (after ≡ take_away (c ∷ p) fs)
  unfolding remove_all
  remove_all-eq-ok after h =
      let led = locate-Leads n fs c p plain in
      elim (Result-cases (locate n fs (c ∷ p))) [
        | inr (x, e) ↦ inl (absent-eq-ok x fs after (rw (e, remove_all) at h))
        | inl (q, e) ↦
            let same : q ≡ c ∷ p = rw e at led in
            let out : ok (take_away q fs) ≡ ok after = rw (e, remove_all) at h in inr cc
      ]

  -- A file is created only where nothing stood.
  pub create-eq-ok :
      (new : Node) (after : Files)
      → create n fs (c ∷ p) new ≡ ok after
      → (after ≡ put (c ∷ p) new fs) × (node fs (c ∷ p) ≡ none)
  unfolding create
  create-eq-ok new after h =
      let led = locate-Leads n fs c p plain in
      elim (Result-cases (locate n fs (c ∷ p))) [
        | inr (x, e) ↦ let bad = rw (e, create) at h in cc
        | inl (q, e) ↦
            let same : q ≡ c ∷ p = rw e at led in
            let (put_there, free) =
              put_new-eq-ok fs q new (node fs q) after (rw (e, create) at h) in
            (rw same at put_there, rw same at free)
      ]

  -- What stands after the removal stood before it.
  pub remove_all-kept :
      {E : Type 0} (f : Errno → E) (s : FilePath) (x : Node)
      → node (call f fs (remove_all n fs (c ∷ p))).0 s ≡ some x
      → node fs s ≡ some x
  unfolding node
  remove_all-kept f [] x h = h
  remove_all-kept f (d ∷ q) x h =
      let Kept = λ (after : Files). node after (d ∷ q) ≡ some x → node fs (d ∷ q) ≡ some x in
      call-files Kept f fs (remove_all n fs (c ∷ p)) (λ k. k)
        (λ after e. elim (remove_all-eq-ok after e) [
          | inl same ↦ rw same (λ k. k)
          | inr taken ↦
              rw (taken, node-take_away (c ∷ p) fs d q)
                (elim (Bool-cases (below (c ∷ p) (d ∷ q))) [
                  | inl b ↦ rw b (λ k. absurd (let bad = k in cc))
                  | inr b ↦ rw b (λ k. k)
                ])
        ])
        h

  module _ (dir : FilePath) (within : below dir p ≡ true) where
    pub remove_all-IsTame :
        {E : Type 0} (f : Errno → E) → IsTame dir fs (call f fs (remove_all n fs (c ∷ p))).0
    remove_all-IsTame f =
        call-files (IsTame dir fs) f fs (remove_all n fs (c ∷ p)) (IsTame-refl dir fs) (λ after e.
          elim (remove_all-eq-ok after e) [
            | inl q ↦ rw q (IsTame-refl dir fs)
            | inr q ↦ rw q (take_away-IsTame dir (c ∷ p) fs (inside-cons dir c p within))
          ])

    pub create-Apart :
        {E : Type 0} (f : Errno → E) (new : Node)
        → Apart dir fs (call f fs (create n fs (c ∷ p) new)).0
    create-Apart f new =
        call-files (Apart dir fs) f fs (create n fs (c ∷ p) new) (Apart-refl dir fs) (λ after e.
          rw ((create-eq-ok new after e).0)
            (put-Apart dir (c ∷ p) fs (inside-cons dir c p within) new))

    pub create-IsTame :
        {E : Type 0} (f : Errno → E) (new : Node)
        → is_symlink (some new) ≡ false
        → IsTame dir fs (call f fs (create n fs (c ∷ p) new)).0
    create-IsTame f new s =
        call-files (IsTame dir fs) f fs (create n fs (c ∷ p) new) (IsTame-refl dir fs) (λ after e.
          rw ((create-eq-ok new after e).0)
            (put-IsTame dir (c ∷ p) fs (inside-cons dir c p within) new s))

    pub link-Apart :
        {E : Type 0} (f : Errno → E) (source : FilePath)
        → Apart dir fs (call f fs (link n fs source (c ∷ p))).0
    unfolding link link_node
    link-Apart f source = elim (Result-cases (lstat n fs source)) [
      | inr (x, e) ↦ rw (e, link) (Apart-refl dir fs)
      | inl (old, e) ↦ elim (Bool-cases (is_directory (some old))) [
        | inl d ↦ rw (e, link, d) (Apart-refl dir fs)
        | inr d ↦ rw (e, link, d) (create-Apart f old)
      ]
    ]

-- A real directory is found, and nothing is made on the way to it.
stat-IsReal :
    (n : ℕ) (fs : Files) (p : FilePath)
    → IsReal fs p
    → (x : Node) × (stat (suc n) fs p ≡ ok x) × (is_directory (some x) ≡ true)
unfolding stat found
stat-IsReal n fs p r =
    let d = IsReal-directory fs p r in
    elim (Option-cases (node fs p)) [
      | inl e ↦ let q = rw e at d in cc
      | inr (x, e) ↦ (x, rw (follow-IsReal n fs p r, stat, e, found) refl, rw e at d)
    ]

pub lstat-IsReal :
    (n : ℕ) (fs : Files) (p : FilePath)
    → IsReal fs p
    → (x : Node) × (lstat (suc n) fs p ≡ ok x) × (is_directory (some x) ≡ true)
unfolding lstat found locate node IsReal
lstat-IsReal n fs [] r = (directory (exact 493), refl, refl)
lstat-IsReal n fs (c ∷ p) (named, d, r) = elim (Option-cases (node fs (c ∷ p))) [
  | inl e ↦ let q = rw e at d in cc
  | inr (x, e) ↦ (x, rw (locate-IsReal n fs c p r, lstat, e, found) refl, rw e at d)
]

pub mkdir_all-IsReal :
    (n : ℕ) (fs : Files) (p : FilePath) → IsReal fs p → mkdir_all (suc n) fs p ≡ (fs, none)
unfolding mkdir_all
mkdir_all-IsReal n fs [] r = refl
mkdir_all-IsReal n fs (c ∷ p) r =
    let (x, e, d) = stat-IsReal n fs (c ∷ p) r in rw (e, mkdir_all, d) refl

module _ (n : ℕ) (dir : FilePath) (fs : Files) (real : IsReal fs dir) where
  make_parent-IsTame :
      (c : Bytes) (p : FilePath) (before : Outcome Errno)
      → below dir p ≡ true
      → IsPlain fs p
      → IsTame dir fs before.0
      → IsTame dir fs (make_parent (suc n) (c ∷ p) before).0
  unfolding make_parent
  make_parent-IsTame c p before b h t =
      and_then-files (IsTame dir fs) (IsTame dir fs) before
        (λ after. call (λ e. e) after (create (suc n) after (c ∷ p) (directory (masked 493)))) t
        (λ after u. u)
        (λ after u.
          IsTame-trans dir fs after
            (call (λ e. e) after (create (suc n) after (c ∷ p) (directory (masked 493)))).0 u
            (create-IsTame (suc n) after c p (IsPlain-mono fs after p u.1 h) dir b (λ e. e)
              (directory (masked 493)) refl))

  pub mkdir_all-IsTame :
      (p : FilePath) → below dir p ≡ true → IsPlain fs p → IsTame dir fs (mkdir_all (suc n) fs p).0
  unfolding mkdir_all IsPlain
  mkdir_all-IsTame [] b h = IsTame-refl dir fs
  mkdir_all-IsTame (c ∷ p) b (named, s, h) = elim (below-cases dir c p b) [
    | inl e ↦ rw (mkdir_all-IsReal n fs (c ∷ p) (rw e at real)) (IsTame-refl dir fs)
    | inr on ↦
        let made = make_parent-IsTame c p (mkdir_all (suc n) fs p) on h (mkdir_all-IsTame p on h) in
        elim (Result-cases (stat (suc n) fs (c ∷ p))) [
          | inr (x, e) ↦ rw (e, mkdir_all) made
          | inl (x, e) ↦ elim (Bool-cases (is_directory (some x))) [
            | inl d ↦ rw (e, mkdir_all, d) (IsTame-refl dir fs)
            | inr d ↦ rw (e, mkdir_all, d) (IsTame-refl dir fs)
          ]
        ]
  ]
