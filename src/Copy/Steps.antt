-- ===== src/Copy/Steps.antt =====
-- box.go: the steps of `copyTree` over the kinds of entries.
use curimata.Common.{
  ℕ, ◌≡◌, ◌≢◌, refl, sym, ap, ◌∙◌, inl, inr, Bool, true, false, ◌&&◌, ltb, List, [], ◌∷◌, Option,
  none, some, Option-cases, Bool-cases, arith, ◌%◌,
}
use curimata.Files.{masked, FilePath, path_eq}
use curimata.Files.Lookup.{path_eq_iff}
use curimata.Copy.{
  Kind, directory, regular, symlink, fifo, other, Entry, Made, made_directory, made_file, made_link,
  made_fifo, made_at, first_path, State, World, make, copy_file, link_to, remember, copy_regular,
  later, copy_directory, copy_kind, copy_entry,
}
use curimata.Copy.Growth.{
  attributes, Grows, Grows-refl, IsFiled, make-eq-some, make-Grows, recorded-kept, recorded-new,
}
use curimata.Copy.Links.{
  is_regular, is_shared, is_inode, first_of, first_from, Inodes, IsFile, made_inode, IsFirsts,
  IsDone, Stepped, first_of-other, made-IsFirsts, made-IsFiled, made-Stepped,
}

and_false : (b : Bool) → (b && false) ≡ false
and_false true = refl
and_false false = refl

IsDone-kind :
    (k l : Kind) (first : ℕ → ℕ → Option FilePath) (t : State) (e : Entry)
    → k ≡ l
    → IsDone l first t e
    → IsDone k first t e
IsDone-kind k l first t e q d = rw q d

module _ (inodes : Inodes) (s : State) (e : Entry) (filed : IsFiled s)
    (firsts : IsFirsts inodes s) where
  -- The first name of a file with several names.
  first-IsFirsts :
      (t : State)
      → Grows s t
      → t.firsts ≡ (e.device, e.inode, e.path) ∷ s.firsts
      → made_at t.made e.path ≡ some (made_inode inodes e.device e.inode e.path)
      → IsFirsts inodes t
  unfolding first_path
  first-IsFirsts t (g, a) same here d i p q =
      let known = rw same at q in
      elim (Bool-cases (is_inode e d i)) [
        | inl k ↦
            let path : e.path ≡ p = (let r = rw k at known in cc) in
            let device : e.device ≡ d = ground arith in
            let inode : e.inode ≡ i = ground arith in rw (sym path, sym device, sym inode) here
        | inr k ↦ g p (made_inode inodes d i p) (firsts d i p (rw k at known))
      ]

  first-from :
      (t : State) (es : List Entry) (d i : ℕ)
      → is_shared e ≡ true
      → t.firsts ≡ (e.device, e.inode, e.path) ∷ s.firsts
      → first_path s.firsts e.device e.inode ≡ none
      → first_from t.firsts es d i ≡ first_from s.firsts (e ∷ es) d i
  unfolding first_path first_of
  first-from t es d i shared same new = elim (Bool-cases (is_inode e d i)) [
    | inl k ↦
        let device : e.device ≡ d = ground arith in
        let inode : e.inode ≡ i = ground arith in
        let unknown : first_path s.firsts d i ≡ none = rw (sym device, sym inode) new in
        rw (same, first_from, first_path, k, unknown, first_of, shared, k) refl
    | inr k ↦ elim (Option-cases (first_path s.firsts d i)) [
      | inl u ↦ rw (same, first_from, first_path, k, u, first_of, shared, k) refl
      | inr (p, u) ↦ rw (same, first_from, first_path, k, u, first_of) refl
    ]
  ]

  first-here :
      (es : List Entry)
      → is_shared e ≡ true
      → first_path s.firsts e.device e.inode ≡ none
      → first_from s.firsts (e ∷ es) e.device e.inode ≡ some e.path
  unfolding first_of
  first-here es shared new =
      let own : is_inode e e.device e.inode ≡ true = ground arith in
      rw (new, first_from, first_of, shared, own) refl

  seen-from :
      (es : List Entry) (d i : ℕ) (p : FilePath)
      → first_path s.firsts e.device e.inode ≡ some p
      → first_from s.firsts es d i ≡ first_from s.firsts (e ∷ es) d i
  unfolding first_of
  seen-from es d i p seen = elim (Option-cases (first_path s.firsts d i)) [
    | inr (q, u) ↦ rw (u, first_from) refl
    | inl u ↦ elim (Bool-cases (is_inode e d i)) [
      | inr k ↦ rw (u, first_from, first_of, k, and_false (is_shared e)) refl
      | inl k ↦
          let device : e.device ≡ d = ground arith in
          let inode : e.inode ≡ i = ground arith in
          let known : first_path s.firsts d i ≡ some p = rw (sym device, sym inode) seen in cc
    ]
  ]

  copy_first-Stepped :
      (t : State)
      → e.kind ≡ regular
      → ltb 1 e.links ≡ true
      → IsFile inodes e
      → first_path s.firsts e.device e.inode ≡ none
      → copy_file (remember s e) e ≡ some t
      → Stepped inodes s e t
  unfolding copy_file IsDone
  copy_first-Stepped t k l f new h =
      let m = made_file e.path e.mode e.time e.body in
      let (free, same) = make-eq-some (remember s e) t e.path m h in
      let (grows, here) = make-Grows (remember s e) t e.path m h in
      let kept : t.firsts ≡ (e.device, e.inode, e.path) ∷ s.firsts =
        ap (λ (r : State). r.firsts) same in
      let shared : is_shared e ≡ true = rw (k, l) refl in
      (
        grows,
        made-IsFiled s t grows (ap (λ (r : State). r.directories) same) filed,
        first-IsFirsts t grows kept (rw (f k l) here),
        (λ es d i. first-from t es d i shared kept new),
        λ es.
            IsDone-kind e.kind regular (first_from s.firsts (e ∷ es)) t e k
              (e.path, here, rw l (first-here es shared new)),
      )

  copy_link-Stepped :
      (t : State) (p : FilePath)
      → e.kind ≡ regular
      → ltb 1 e.links ≡ true
      → IsFile inodes e
      → first_path s.firsts e.device e.inode ≡ some p
      → link_to s p e.path ≡ some t
      → Stepped inodes s e t
  unfolding link_to IsDone
  copy_link-Stepped t p k l f seen h =
      let file : made_at s.made p ≡ some (made_file p e.mode e.time e.body) =
        rw (f k l) at (firsts e.device e.inode p seen) in
      let m = made_file p e.mode e.time e.body in
      let made : make s e.path m ≡ some t = rw (file, link_to) at h in
      let (free, same) = make-eq-some s t e.path m made in
      let (grows, here) = make-Grows s t e.path m made in
      let kept : t.firsts ≡ s.firsts = ap (λ (r : State). r.firsts) same in
      (
        grows,
        made-IsFiled s t grows (ap (λ (r : State). r.directories) same) filed,
        made-IsFirsts inodes s t grows kept firsts,
        (λ es d i. rw kept (seen-from es d i p seen)),
        λ es.
            IsDone-kind e.kind regular (first_from s.firsts (e ∷ es)) t e k
              (p, here, rw (l, seen, first_from) refl),
      )

  copy_regular-Stepped :
      (t : State)
      → e.kind ≡ regular
      → IsFile inodes e
      → copy_regular s e ≡ some t
      → Stepped inodes s e t
  unfolding copy_regular copy_file IsDone
  copy_regular-Stepped t k f h = elim (Bool-cases (ltb 1 e.links)) [
    | inr l ↦
        made-Stepped inodes s e filed firsts t (made_file e.path e.mode e.time e.body)
          (rw (l, and_false (is_regular e.kind)) refl) (rw (l, copy_regular) at h)
          (λ es here.
            IsDone-kind e.kind regular (first_from s.firsts (e ∷ es)) t e k
              (e.path, here, rw l refl))
    | inl l ↦ elim (Option-cases (first_path s.firsts e.device e.inode)) [
      | inl q ↦ copy_first-Stepped t k l f q (rw (l, q, copy_regular) at h)
      | inr (p, q) ↦ copy_link-Stepped t p k l f q (rw (l, q, copy_regular) at h)
    ]
  ]

  -- The record of a new directory is for that directory.
  later-IsFiled :
      (t : State)
      → attributes s.directories e.path ≡ none
      → t.directories ≡ (e.path, e.mode, e.time) ∷ s.directories
      → ((p : FilePath) (m : Made) → made_at s.made p ≡ some m → made_at t.made p ≡ some m)
      → made_at t.made e.path ≡ some (made_directory 448 0)
      → IsFiled t
  unfolding attributes
  later-IsFiled t none-yet same grows here p v q =
      let known = rw same at q in
      elim (Option-cases (attributes s.directories p)) [
        | inr (u, r) ↦ let (m, k, stood) = filed p u r in (m, k, grows p (made_directory m k) stood)
        | inl r ↦ elim (Bool-cases (path_eq e.path p)) [
          | inl a ↦ let path = (path_eq_iff e.path p).0 a in (448, 0, rw (sym path) here)
          | inr a ↦ let bad = rw (r, attributes, a) at known in cc
        ]
      ]

  copy_directory-Stepped :
      (t : State)
      → e.kind ≡ directory
      → make (later s e) e.path (made_directory 448 0) ≡ some t
      → Stepped inodes s e t
  unfolding IsDone
  copy_directory-Stepped t k h =
      let (free, same) = make-eq-some (later s e) t e.path (made_directory 448 0) h in
      let (grows, here) = make-Grows (later s e) t e.path (made_directory 448 0) h in
      let kept : t.firsts ≡ s.firsts = ap (λ (r : State). r.firsts) same in
      let recorded : t.directories ≡ (e.path, e.mode, e.time) ∷ s.directories =
        ap (λ (r : State). r.directories) same in
      let new : attributes s.directories e.path ≡ none =
        elim (Option-cases (attributes s.directories e.path)) [
          | inl r ↦ r
          | inr (v, r) ↦
              let (m, d, stood) = filed e.path v r in
              absurd (let bad : none ≡ some (made_directory m d) = sym free ∙ stood in cc)
        ] in
      let grown : Grows s t =
        (grows.0, λ p v r. rw recorded (recorded-kept s.directories e.path e.mode e.time p v r)) in
      (
        grown,
        later-IsFiled t new recorded grows.0 here,
        made-IsFirsts inodes s t grown kept firsts,
        (λ es d i. rw kept (first_of-other s.firsts e es d i (rw k refl))),
        λ es.
            IsDone-kind e.kind directory (first_from s.firsts (e ∷ es)) t e k
              (rw recorded (recorded-new s.directories e.path e.mode e.time new)),
      )

  other-Stepped : e.kind ≡ other → Stepped inodes s e s
  unfolding IsDone
  other-Stepped k = (
    Grows-refl s,
    filed,
    firsts,
    (λ es d i. first_of-other s.firsts e es d i (rw k refl)),
    λ es. IsDone-kind e.kind other (first_from s.firsts (e ∷ es)) s e k tt,
  )

  below-root :
      (q : FilePath) → q ≢ [] → copy_directory s e q ≡ make (later s e) q (made_directory 448 0)
  unfolding copy_directory
  below-root [] n = absurd (n refl)
  below-root (c ∷ q) n = refl

  copy_kind-Stepped :
      (k : Kind) (t : State)
      → e.kind ≡ k
      → e.path ≢ []
      → IsFile inodes e
      → copy_kind k s e ≡ some t
      → Stepped inodes s e t
  unfolding copy_kind IsDone
  copy_kind-Stepped directory t k n f h = copy_directory-Stepped t k (rw (below-root e.path n) at h)
  copy_kind-Stepped regular t k n f h = copy_regular-Stepped t k f h
  copy_kind-Stepped symlink t k n f h =
      made-Stepped inodes s e filed firsts t (made_link e.body) (rw k refl) h
        (λ es here. IsDone-kind e.kind symlink (first_from s.firsts (e ∷ es)) t e k here)
  copy_kind-Stepped fifo t k n f h =
      made-Stepped inodes s e filed firsts t (made_fifo (masked (e.mode % 512))) (rw k refl) h
        (λ es here. IsDone-kind e.kind fifo (first_from s.firsts (e ∷ es)) t e k here)
  copy_kind-Stepped other t k n f h = let same : s ≡ t = cc in rw (sym same) (other-Stepped k)

  pub copy_entry-Stepped :
      (w : World) (t : State)
      → e.path ≢ []
      → IsFile inodes e
      → copy_entry w s e ≡ some t
      → Stepped inodes s e t
  unfolding copy_entry
  copy_entry-Stepped w t n f h = elim (Bool-cases (w.walk_fails e)) [
    | inl a ↦ let bad = rw a at h in cc
    | inr a ↦ elim (Bool-cases (w.call_fails e)) [
      | inl b ↦ let bad = rw (a, b) at h in cc
      | inr b ↦ copy_kind-Stepped e.kind t refl n f (rw (a, b) at h)
    ]
  ]
