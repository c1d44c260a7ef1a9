-- ===== src/Untar/Content.antt =====
-- image.go: what stands at the target of an entry that is unpacked without an error.
use curimata.Common.{
  ℕ, ◌≡◌, refl, inl, inr, true, false, [], ◌∷◌, Option, none, some, if◌then◌else◌, Bool-cases,
  Bytes, Result, ok, err, Result-cases,
}
use curimata.Files.{
  masked, node, FilePath, path_eq, Node, directory, file, Files, put, is_directory,
}
use curimata.Files.Paths.{parent}
use curimata.Files.Resolve.{
  Errno, no_entry, not_directory, file_exists, is_directory_error, too_many_links, locate,
}
use curimata.Files.Calls.{
  Outcome, call, and_then, lstat, found, remove_all, create, link, link_node,
}
use curimata.Files.Lookup.{below_refl, path_eq_refl, node-put}
use curimata.Files.Frame.{IsPlain, IsPlain-mono}
use curimata.Files.Reach.{locate-Leads}
use curimata.Files.Changes.{remove_all-IsTame, create-eq-ok}
use curimata.Untar.{
  Entry, UntarError, not_written, bad_body, perm, wrap, if_missing, make_dir, make_real_dir,
  replace, write_file,
}

pub call-done :
    {E : Type 0} (f : Errno → E) (fs : Files) (r : Result Errno Files)
    → (call f fs r).1 ≡ none
    → r ≡ ok (call f fs r).0
call-done f fs (err e) h = cc
call-done f fs (ok after) h = refl

pub and_then-done :
    {E : Type 0} (o : Outcome E) (next : Files → Outcome E)
    → (and_then o next).1 ≡ none
    → (o.1 ≡ none) × ((next o.0).1 ≡ none) × ((and_then o next).0 ≡ (next o.0).0)
and_then-done (fs, some e) next h = cc
and_then-done (fs, none) next h = (refl, h, refl)

pub wrap-done :
    (f : Errno → UntarError) (o : Outcome Errno)
    → (wrap f o).1 ≡ none
    → (o.1 ≡ none) × ((wrap f o).0 ≡ o.0)
wrap-done f (fs, some e) h = cc
wrap-done f (fs, none) h = (refl, refl)

put-there :
    (fs : Files) (c : Bytes) (p : FilePath) (n : Node) → node (put (c ∷ p) n fs) (c ∷ p) ≡ some n
put-there fs c p n = rw (node-put (c ∷ p) n fs c p, path_eq_refl (c ∷ p)) refl

module _ (n : ℕ) (fs : Files) (c : Bytes) (p : FilePath) (plain : IsPlain fs p) where
  create-done :
      {E : Type 0} (f : Errno → E) (new : Node)
      → (call f fs (create n fs (c ∷ p) new)).1 ≡ none
      → node (call f fs (create n fs (c ∷ p) new)).0 (c ∷ p) ≡ some new
  create-done f new h =
      let e = call-done f fs (create n fs (c ∷ p) new) h in
      let (made, free) =
        create-eq-ok n fs c p plain new (call f fs (create n fs (c ∷ p) new)).0 e in
      rw made (put-there fs c p new)

  -- A copy of another node leaves that node where it was.
  create-source :
      {E : Type 0} (f : Errno → E) (x : Node) (d : Bytes) (q : FilePath)
      → (call f fs (create n fs (c ∷ p) x)).1 ≡ none
      → node fs (d ∷ q) ≡ some x
      → node (call f fs (create n fs (c ∷ p) x)).0 (d ∷ q) ≡ some x
  create-source f x d q h stood =
      let e = call-done f fs (create n fs (c ∷ p) x) h in
      let (made, free) = create-eq-ok n fs c p plain x (call f fs (create n fs (c ∷ p) x)).0 e in
      let put_it = node-put (c ∷ p) x fs d q in
      elim (Bool-cases (path_eq (c ∷ p) (d ∷ q))) [
        | inl k ↦ rw (made, put_it, k) refl
        | inr k ↦ rw (made, put_it, k) stood
      ]

  found-ok : (o : Option Node) (x : Node) → found o ≡ ok x → o ≡ some x
  unfolding found
  found-ok none x h = cc
  found-ok (some y) x h = cc

  lstat-eq-ok : (x : Node) → lstat n fs (c ∷ p) ≡ ok x → node fs (c ∷ p) ≡ some x
  unfolding lstat
  lstat-eq-ok x h =
      let led = locate-Leads n fs c p plain in
      elim (Result-cases (locate n fs (c ∷ p))) [
        | inr (y, e) ↦ let bad = rw (e, lstat) at h in cc
        | inl (q, e) ↦
            let same : q ≡ c ∷ p = rw e at led in
            found-ok (node fs (c ∷ p)) x (rw (e, lstat, same) at h)
      ]

  -- The removal of the target makes no link.
  pub removed-IsPlain :
      {E : Type 0} (f : Errno → E) (q : FilePath)
      → IsPlain fs q
      → IsPlain (call f fs (remove_all n fs (c ∷ p))).0 q
  removed-IsPlain f q h =
      IsPlain-mono fs (call f fs (remove_all n fs (c ∷ p))).0 q
        (remove_all-IsTame n fs c p plain p (below_refl p) f).1 h

module _ (n : ℕ) (fs : Files) (c : Bytes) (p : FilePath) (plain : IsPlain fs p) where
  pub replace-done :
      (f g : Errno → UntarError) (new : Node)
      → (replace n fs (c ∷ p) f g new).1 ≡ none
      → node (replace n fs (c ∷ p) f g new).0 (c ∷ p) ≡ some new
  unfolding replace
  replace-done f g new h =
      let cleared = call f fs (remove_all n fs (c ∷ p)) in
      let (first, second, same) =
        and_then-done cleared (λ after. call g after (create n after (c ∷ p) new)) h in
      rw same (create-done n cleared.0 c p (removed-IsPlain n fs c p plain f p plain) g new second)

  make_dir-done :
      (after : Files)
      → IsPlain after p
      → (make_dir n after (c ∷ p)).1 ≡ none
      → is_directory (node (make_dir n after (c ∷ p)).0 (c ∷ p)) ≡ true
  unfolding make_dir
  make_dir-done after h e = rw (create-done n after c p h (λ x. x) (directory (masked 493)) e) refl

  if_missing-done :
      (e : Errno)
      → (if_missing e fs (make_dir n fs (c ∷ p))).1 ≡ none
      → is_directory (node (if_missing e fs (make_dir n fs (c ∷ p))).0 (c ∷ p)) ≡ true
  if_missing-done no_entry h = make_dir-done fs plain h
  if_missing-done not_directory h = cc
  if_missing-done file_exists h = cc
  if_missing-done is_directory_error h = cc
  if_missing-done too_many_links h = cc

  pub make_real_dir-done :
      (make_real_dir n fs (c ∷ p)).1 ≡ none
      → is_directory (node (make_real_dir n fs (c ∷ p)).0 (c ∷ p)) ≡ true
  unfolding make_real_dir
  make_real_dir-done h =
      let cleared = call (λ e. e) fs (remove_all n fs (c ∷ p)) in
      elim (Result-cases (lstat n fs (c ∷ p))) [
        | inr (x, e) ↦ rw (e, make_real_dir) (if_missing-done x (rw (e, make_real_dir) at h))
        | inl (x, e) ↦ elim (Bool-cases (is_directory (some x))) [
          | inl d ↦ rw (e, make_real_dir, d, lstat-eq-ok n fs c p plain x e) d
          | inr d ↦
              let (first, second, same) =
                and_then-done cleared (λ after. make_dir n after (c ∷ p))
                  (rw (e, make_real_dir, d) at h) in
              rw (e, make_real_dir, d, same)
                (make_dir-done cleared.0 (removed-IsPlain n fs c p plain (λ x. x) p plain) second)
        ]
      ]

  pub write_file-done :
      (e : Entry)
      → (write_file n fs (c ∷ p) e).1 ≡ none
      → node (write_file n fs (c ∷ p) e).0 (c ∷ p) ≡ some (file (masked (perm e.mode)) e.body)
  unfolding write_file
  write_file-done e h =
      let new = file (masked (perm e.mode)) e.body in
      let (first, second, same) =
        and_then-done (replace n fs (c ∷ p) not_written not_written new)
          (λ written. (written, if e.body_cut then some bad_body else none)) h in
      rw same (replace-done not_written not_written new first)

  -- A hard link makes the node of its source stand at the target too.
  pub link-done :
      {E : Type 0} (f : Errno → E) (s : FilePath)
      → IsPlain fs (parent s)
      → (call f fs (link n fs s (c ∷ p))).1 ≡ none
      → (x : Node) × (is_directory (some x) ≡ false)
        × (node fs s ≡ some x)
        × (node (call f fs (link n fs s (c ∷ p))).0 s ≡ some x)
        × (node (call f fs (link n fs s (c ∷ p))).0 (c ∷ p) ≡ some x)
  unfolding link link_node
  link-done f [] hs h = let bad : some (f is_directory_error) ≡ none = h in cc
  link-done f (d ∷ q) hs h = elim (Result-cases (lstat n fs (d ∷ q))) [
    | inr (y, e) ↦ let bad = rw (e, link) at h in cc
    | inl (x, e) ↦ elim (Bool-cases (is_directory (some x))) [
      | inl k ↦ let bad = rw (e, link, k) at h in cc
      | inr k ↦
          let there = lstat-eq-ok n fs d q hs x e in
          let stands = create-done n fs c p plain f x (rw (e, link, k) at h) in
          rw (e, link, k)
            (x, k, there, create-source n fs c p plain f x d q (rw (e, link, k) at h) there, stands)
    ]
  ]
