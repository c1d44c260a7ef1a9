-- ===== src/Untar/Inside.antt =====
-- image.go: what an entry changes stands inside the directory of the layer.
use curimata.Common.{
  ℕ, ◌≡◌, refl, inl, inr, true, ◌∷◌, none, some, if◌then◌else◌, Option-cases, Bool-cases, Bytes,
  Result-cases,
}
use curimata.Files.{
  masked, FilePath, below, Node, directory, file, symlink, fifo, Files, is_directory,
}
use curimata.Files.Resolve.{
  Errno, no_entry, not_directory, file_exists, is_directory_error, too_many_links,
}
use curimata.Files.Calls.{Outcome, call, and_then, lstat, remove_all, create, link}
use curimata.Files.Frame.{
  Apart, IsTame, Apart-refl, Apart-trans, IsTame-refl, IsTame-trans, IsPlain, IsPlain-mono,
}
use curimata.Files.Changes.{
  and_then-files, remove_all-IsTame, create-Apart, create-IsTame, link-Apart,
}
use curimata.Untar.{
  SecureJoin, TypeFlag, type_dir, type_reg, type_symlink, type_link, type_fifo, type_char,
  type_block, type_other, Entry, UntarError, not_made, not_written, not_replaced, not_linked,
  not_hard_linked, no_fifo, bad_body, perm, join_inside, wrap, if_missing, make_dir, make_real_dir,
  replace, write_file, hard_link, unless_missing, place_by,
}

if_missing-files :
    (P : Files → Type 0) (e : Errno) (fs : Files) (made : Outcome Errno)
    → P fs
    → P made.0
    → P (if_missing e fs made).0
if_missing-files P no_entry fs made h k = k
if_missing-files P not_directory fs made h k = h
if_missing-files P file_exists fs made h k = h
if_missing-files P is_directory_error fs made h k = h
if_missing-files P too_many_links fs made h k = h

pub unless_missing-files :
    (P : Files → Type 0) (e : Errno) (fs : Files) → P fs → P (unless_missing e fs).0
unless_missing-files P no_entry fs h = h
unless_missing-files P not_directory fs h = h
unless_missing-files P file_exists fs h = h
unless_missing-files P is_directory_error fs h = h
unless_missing-files P too_many_links fs h = h

pub wrap-files :
    (P : Files → Type 0) (f : Errno → UntarError) (o : Outcome Errno) → P o.0 → P (wrap f o).0
wrap-files P f (fs, none) h = h
wrap-files P f (fs, some e) h = h

-- The target `c ∷ p` stands in a directory without links that is in `dir`.
module _ (n : ℕ) (dir : FilePath) (fs : Files) (c : Bytes) (p : FilePath) (b : below dir p ≡ true)
    (plain : IsPlain fs p) where
  make_dir-IsTame :
      (after : Files) → IsTame dir fs after → IsTame dir fs (make_dir n after (c ∷ p)).0
  unfolding make_dir
  make_dir-IsTame after t = IsTame-trans dir fs after (make_dir n after (c ∷ p)).0 t (
      create-IsTame n after c p (IsPlain-mono fs after p t.1 plain) dir b (λ e. e)
        (directory (masked 493)) refl)

  make_real_dir-IsTame : IsTame dir fs (make_real_dir n fs (c ∷ p)).0
  unfolding make_real_dir
  make_real_dir-IsTame = elim (Result-cases (lstat n fs (c ∷ p))) [
    | inr (x, e) ↦
        rw (e, make_real_dir)
          (if_missing-files (IsTame dir fs) x fs (make_dir n fs (c ∷ p)) (IsTame-refl dir fs)
            (make_dir-IsTame fs (IsTame-refl dir fs)))
    | inl (x, e) ↦ elim (Bool-cases (is_directory (some x))) [
      | inl d ↦ rw (e, make_real_dir, d) (IsTame-refl dir fs)
      | inr d ↦
          rw (e, make_real_dir, d)
            (and_then-files (IsTame dir fs) (IsTame dir fs)
              (call (λ e. e) fs (remove_all n fs (c ∷ p))) (λ cleared. make_dir n cleared (c ∷ p))
              (remove_all-IsTame n fs c p plain dir b (λ e. e)) (λ after t. t) make_dir-IsTame)
    ]
  ]

  -- What follows the removal of the target.
  removed-Apart :
      (f : Errno → UntarError) (next : Files → Outcome UntarError)
      → ((after : Files) → IsPlain after p → Apart dir after (next after).0)
      → Apart dir fs (and_then (call f fs (remove_all n fs (c ∷ p))) next).0
  removed-Apart f next k =
      and_then-files (IsTame dir fs) (Apart dir fs) (call f fs (remove_all n fs (c ∷ p))) next
        (remove_all-IsTame n fs c p plain dir b f) (λ after t. t.0)
        (λ after t.
          Apart-trans dir fs after (next after).0 t.0 (k after (IsPlain-mono fs after p t.1 plain)))

  replace-Apart :
      (f g : Errno → UntarError) (new : Node) → Apart dir fs (replace n fs (c ∷ p) f g new).0
  unfolding replace
  replace-Apart f g new =
      removed-Apart f (λ after. call g after (create n after (c ∷ p) new))
        (λ after h. create-Apart n after c p h dir b g new)

  write_file-Apart : (e : Entry) → Apart dir fs (write_file n fs (c ∷ p) e).0
  unfolding write_file
  write_file-Apart e =
      let new = file (masked (perm e.mode)) e.body in
      and_then-files (Apart dir fs) (Apart dir fs)
        (replace n fs (c ∷ p) not_written not_written new)
        (λ written. (written, if e.body_cut then some bad_body else none))
        (replace-Apart not_written not_written new) (λ after h. h) (λ after h. h)

  hard_link-Apart :
      (secure_join : SecureJoin) (e : Entry)
      → Apart dir fs (hard_link secure_join n dir fs e (c ∷ p)).0
  unfolding hard_link
  hard_link-Apart secure_join e = elim (Option-cases (join_inside secure_join fs dir e.link_name)) [
    | inl q ↦ rw (q, hard_link) (Apart-refl dir fs)
    | inr (source, q) ↦
        rw (q, hard_link)
          (removed-Apart not_replaced
            (λ after. call not_hard_linked after (link n after source (c ∷ p)))
            (λ after h. link-Apart n after c p h dir b not_hard_linked source))
  ]

  pub place_by-Apart :
      (flag : TypeFlag) (secure_join : SecureJoin) (e : Entry)
      → Apart dir fs (place_by flag secure_join n dir e (c ∷ p) fs).0
  unfolding place_by
  place_by-Apart type_dir secure_join e =
      wrap-files (Apart dir fs) not_made (make_real_dir n fs (c ∷ p)) make_real_dir-IsTame.0
  place_by-Apart type_reg secure_join e = write_file-Apart e
  place_by-Apart type_symlink secure_join e =
      replace-Apart not_replaced not_linked (symlink e.link_name)
  place_by-Apart type_link secure_join e = hard_link-Apart secure_join e
  place_by-Apart type_fifo secure_join e =
      replace-Apart not_replaced no_fifo (fifo (masked (perm e.mode)))
  place_by-Apart type_char secure_join e = Apart-refl dir fs
  place_by-Apart type_block secure_join e = Apart-refl dir fs
  place_by-Apart type_other secure_join e = Apart-refl dir fs
