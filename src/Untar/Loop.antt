-- ===== src/Untar/Loop.antt =====
-- image.go: the loop of `untar` stays inside the directory of the layer.
use curimata.Common.{
  ℕ, suc, ◌≡◌, refl, sym, inl, inr, Bool, true, false, ◌||◌, List, [], ◌∷◌, ◌++◌, none, some,
  Option-cases, Bool-cases, arith, All, Bytes, bytes_eq, Result-cases,
}
use curimata.Text.Search.{has_prefix, cut_prefix}
use curimata.Files.{FilePath, below, Files}
use curimata.Files.Paths.{parent, base, dir_of, clean_rooted, step-name}
use curimata.Files.Calls.{call, remove_all, mkdir_all, read_dir}
use curimata.Files.Frame.{
  Apart, IsTame, Apart-refl, Apart-trans, IsTame-refl, IsTame-trans, IsPlain, IsPlain-mono, IsReal,
  IsReal-IsPlain, IsReal-Apart,
}
use curimata.Files.Lookup.{below-cases, path_eq_iff}
use curimata.Files.Changes.{
  lstat-IsReal, and_then-files, remove_all-IsTame, mkdir_all-IsTame, mkdir_all-IsReal,
}
use curimata.Untar.{
  SecureJoin, TypeFlag, type_dir, type_reg, type_symlink, type_link, type_fifo, type_char,
  type_block, type_other, Entry, no_parent, not_whited_out, not_cleared, join_inside, wrap,
  make_real_dir, remove_names, clear_at, clear_dir, make_entry, place_by, place, apply_at,
  apply_entry, apply_entries, whiteout, marker, opaque,
}
use curimata.Untar.Targets.{
  IsSecure, replaces, keeps_root, names_victim, is_ordinary, join_inside-target, join_inside-root,
  whiteout-base,
}
use curimata.Untar.Inside.{unless_missing-files, wrap-files, place_by-Apart}

module _ (secure_join : SecureJoin) (secure : IsSecure secure_join) (n : ℕ) (dir : FilePath) where
  module _ (fs : Files) (real : IsReal fs dir) where
    pub plain : IsPlain fs dir
    plain = IsReal-IsPlain fs dir real

    remove_names-IsTame :
        (t : FilePath) (names : List Bytes) (after : Files)
        → below dir t ≡ true
        → IsPlain fs t
        → IsTame dir fs after
        → IsTame dir fs (remove_names (suc n) t names after).0
    unfolding remove_names
    remove_names-IsTame t [] after b h u = u
    remove_names-IsTame t (c ∷ names) after b h u =
        let gone =
          remove_all-IsTame (suc n) after c t (IsPlain-mono fs after t u.1 h) dir b not_cleared in
        and_then-files (IsTame dir fs) (IsTame dir fs)
          (call not_cleared after (remove_all (suc n) after (c ∷ t)))
          (λ later. remove_names (suc n) t names later)
          (IsTame-trans dir fs after (call not_cleared after (remove_all (suc n) after (c ∷ t))).0 u
            gone)
          (λ later v. v) (λ later v. remove_names-IsTame t names later b h v)

    clear_dir-Apart : (rel : FilePath) → Apart dir fs (clear_dir secure_join (suc n) dir fs rel).0
    unfolding clear_dir clear_at
    clear_dir-Apart rel = elim (Option-cases (secure_join fs dir rel)) [
      | inl e ↦ rw (e, clear_dir) (Apart-refl dir fs)
      | inr (t, e) ↦
          let (b, h) = secure fs dir rel t plain e in
          elim (Result-cases (read_dir (suc n) fs t)) [
            | inr (x, q) ↦
                rw (e, clear_dir, q, clear_at)
                  (unless_missing-files (Apart dir fs) x fs (Apart-refl dir fs))
            | inl (names, q) ↦
                rw (e, clear_dir, q, clear_at)
                  (remove_names-IsTame t names fs b h (IsTame-refl dir fs)).0
          ]
    ]

    make_entry-below :
        (e : Entry) (c : Bytes) (p : FilePath)
        → below dir p ≡ true
        → IsPlain fs p
        → Apart dir fs (make_entry secure_join (suc n) dir fs e (c ∷ p)).0
    unfolding make_entry place
    make_entry-below e c p b h =
        and_then-files (IsTame dir fs) (Apart dir fs) (wrap no_parent (mkdir_all (suc n) fs p))
          (λ made. place secure_join (suc n) dir e (c ∷ p) made)
          (wrap-files (IsTame dir fs) no_parent (mkdir_all (suc n) fs p)
            (mkdir_all-IsTame n dir fs real p b h))
          (λ made t. t.0)
          (λ made t. Apart-trans dir fs made (place secure_join (suc n) dir e (c ∷ p) made).0 t.0 (
            place_by-Apart (suc n) dir made c p b (IsPlain-mono fs made p t.1 h) e.flag secure_join
              e))

    IsReal-parent : (p : FilePath) → IsReal fs p → IsReal fs (parent p)
    unfolding IsReal
    IsReal-parent [] r = tt
    IsReal-parent (c ∷ p) (named, d, r) = r

    make_real_dir-IsReal : (p : FilePath) → IsReal fs p → make_real_dir (suc n) fs p ≡ (fs, none)
    unfolding make_real_dir
    make_real_dir-IsReal p r =
        let (x, e, d) = lstat-IsReal n fs p r in rw (e, make_real_dir, d) refl

    place_by-root :
        (flag : TypeFlag) (e : Entry)
        → replaces flag ≡ false
        → (place_by flag secure_join (suc n) dir e dir fs).0 ≡ fs
    unfolding place_by replaces
    place_by-root type_dir e r = rw (make_real_dir-IsReal dir real) refl
    place_by-root type_reg e r = cc
    place_by-root type_symlink e r = cc
    place_by-root type_link e r = cc
    place_by-root type_fifo e r = cc
    place_by-root type_char e r = refl
    place_by-root type_block e r = refl
    place_by-root type_other e r = refl

    make_entry-root :
        (e : Entry) → replaces e.flag ≡ false → (make_entry secure_join (suc n) dir fs e dir).0 ≡ fs
    unfolding make_entry place
    make_entry-root e r =
        rw (mkdir_all-IsReal n fs (parent dir) (IsReal-parent dir real), make_entry)
          (place_by-root e.flag e r)

    -- An entry that makes nothing new at `dir` may have it as its target.
    make_entry-at :
        (e : Entry) (t : FilePath)
        → replaces e.flag ≡ false
        → below dir t ≡ true
        → IsPlain fs t
        → Apart dir fs (make_entry secure_join (suc n) dir fs e t).0
    unfolding IsPlain below
    make_entry-at e [] r b h =
        let top = (path_eq_iff dir []).0 b in rw (sym top, make_entry-root e r) (Apart-refl dir fs)
    make_entry-at e (c ∷ p) r b (named, s, h) = elim (below-cases dir c p b) [
      | inl q ↦ rw (sym q, make_entry-root e r) (Apart-refl dir fs)
      | inr on ↦ make_entry-below e c p on h
    ]

    make_entry-Apart :
        (e : Entry) (clean : FilePath) (t : FilePath)
        → clean_rooted e.name ≡ clean
        → keeps_root clean e.flag ≡ true
        → join_inside secure_join fs dir e.name ≡ some t
        → Apart dir fs (make_entry secure_join (suc n) dir fs e t).0
    unfolding keeps_root
    make_entry-Apart e [] t q k j =
        let (b, h) = join_inside-root secure_join secure fs dir plain e.name t q j in
        make_entry-at e t (ground arith) b h
    make_entry-Apart e (c ∷ p) t q k j =
        let (r, same, b, h) = join_inside-target secure_join secure fs dir plain e.name c p t q j in
        rw same (make_entry-below e c r b h)

    apply_at-Apart :
        (e : Entry) (t : FilePath)
        → is_ordinary e ≡ true
        → join_inside secure_join fs dir e.name ≡ some t
        → Apart dir fs (apply_at secure_join (suc n) dir fs e t).0.0
    unfolding apply_at is_ordinary
    apply_at-Apart e t o j =
        let root : keeps_root (clean_rooted e.name) e.flag ≡ true = ground arith in
        let named : names_victim (cut_prefix (base e.name) whiteout) ≡ true = ground arith in
        elim (Option-cases (cut_prefix (base e.name) whiteout)) [
          | inl q ↦ rw (q, apply_at) (make_entry-Apart e (clean_rooted e.name) t refl root j)
          | inr (v, q) ↦
              let (p, last) = whiteout-base e.name v q in
              let (r, same, b, h) =
                join_inside-target secure_join secure fs dir plain e.name (base e.name) p t last
                  j in
              let victim = step-name true r v (rw q at named) in
              rw (q, apply_at, same, victim)
                (remove_all-IsTame (suc n) fs v r h dir b not_whited_out).0
        ]

    pub apply_entry-Apart :
        (e : Entry)
        → is_ordinary e ≡ true
        → Apart dir fs (apply_entry secure_join (suc n) dir fs e).0.0
    unfolding apply_entry
    apply_entry-Apart e o =
        elim (Bool-cases (bytes_eq e.name [] || has_prefix (base e.name) marker)) [
          | inl s ↦ elim (Bool-cases (bytes_eq (base e.name) opaque)) [
            | inl m ↦ rw (s, m) (clear_dir-Apart (dir_of e.name))
            | inr m ↦ rw (s, m) (Apart-refl dir fs)
          ]
          | inr s ↦ elim (Option-cases (join_inside secure_join fs dir e.name)) [
            | inl j ↦ rw (s, j, apply_entry) (Apart-refl dir fs)
            | inr (t, j) ↦ rw (s, j, apply_entry) (apply_at-Apart e t o j)
          ]
        ]

  -- Whatever an archive holds, if no entry replaces the root or deletes "." or "..", then the loop changes
  -- nothing but inside a real directory, also when it ends in an error.
  pub apply_entries-Apart :
      (es : List Entry) (broken : Bool) (fs : Files) (modes : List (FilePath × ℕ))
      → IsReal fs dir
      → All (λ e. is_ordinary e ≡ true) es
      → Apart dir fs (apply_entries secure_join (suc n) dir es broken fs modes).0.0
  unfolding apply_entries
  apply_entries-Apart [] broken fs modes real h = Apart-refl dir fs
  apply_entries-Apart (e ∷ es) broken fs modes real (o, h) =
      let applied = apply_entry secure_join (suc n) dir fs e in
      let first = apply_entry-Apart fs real e o in
      elim (Option-cases applied.0.1) [
        | inr (x, q) ↦ rw (q, apply_entries) first
        | inl q ↦
            rw (q, apply_entries)
              (Apart-trans dir fs applied.0.0
                (apply_entries secure_join (suc n) dir es broken applied.0.0
                  (applied.1 ++ modes)).0.0
                first
                (apply_entries-Apart es broken applied.0.0 (applied.1 ++ modes)
                  (IsReal-Apart dir fs applied.0.0 first real) h))
      ]
