-- ===== src/Image/Cuts.antt =====
-- Texts cut at the first or at the last of a byte, as `parseRef` cuts them.
use curimata.Common.{
  ℕ, zero, suc, ◌≡◌, refl, inl, inr, false, [], ◌∷◌, none, some, arith, ◌==◌, Bytes, Lacks, take,
  drop, Bool-cases, Option-cases,
}
use curimata.Text.Search.{contains, index, last_index}

pub Lacks-contains : (s : Bytes) (b : ℕ) → Lacks b s → contains s b ≡ false
unfolding contains
Lacks-contains [] b h = refl
Lacks-contains (c ∷ s) b (h, hs) = rw (Lacks-contains s b hs) (ground arith)

pub Lacks-take : (n : ℕ) (s : Bytes) (b : ℕ) → Lacks b s → Lacks b (take n s)
Lacks-take zero s b h = tt
Lacks-take (suc n) [] b h = tt
Lacks-take (suc n) (c ∷ s) b (h, hs) = (h, Lacks-take n s b hs)

pub Lacks-drop : (n : ℕ) (s : Bytes) (b : ℕ) → Lacks b s → Lacks b (drop n s)
Lacks-drop zero s b h = h
Lacks-drop (suc n) [] b h = tt
Lacks-drop (suc n) (c ∷ s) b (h, hs) = Lacks-drop n s b hs

last_index_missing : (s : Bytes) (b : ℕ) → last_index s b ≡ none → Lacks b s
unfolding last_index
last_index_missing [] b h = tt
last_index_missing (c ∷ s) b h = elim (Option-cases (last_index s b)) [
  | inl e ↦ (let q = rw e at h in ground arith, last_index_missing s b e)
  | inr (j, e) ↦ absurd (let q = rw e at h in ground arith)
]

-- No `b` stands before the first, and none behind the last.
pub index-Lacks : (s : Bytes) (b i : ℕ) → index s b ≡ some i → Lacks b (take i s)
unfolding index
index-Lacks [] b i h = absurd (cc)
index-Lacks (c ∷ s) b zero h = tt
index-Lacks (c ∷ s) b (suc i) h = elim (Bool-cases (c == b)) [
  | inl e ↦ absurd (let q = rw e at h in ground arith)
  | inr e ↦
      let q = rw e at h in
      elim (Option-cases (index s b)) [
        | inl n ↦ absurd (let r = rw n at q in ground arith)
        | inr (j, n) ↦
            let r = rw n at q in
            let same : index s b ≡ some i = ground arith in (ground arith, index-Lacks s b i same)
      ]
]

pub last_index-Lacks : (s : Bytes) (b i : ℕ) → last_index s b ≡ some i → Lacks b (drop (suc i) s)
unfolding last_index
last_index-Lacks [] b i h = absurd (cc)
last_index-Lacks (c ∷ s) b i h = elim (Option-cases (last_index s b)) [
  | inl e ↦ elim (Bool-cases (c == b)) [
    | inl f ↦
        let z : i ≡ 0 = let q = rw (e, f) at h in ground arith in rw z (last_index_missing s b e)
    | inr f ↦ absurd (let q = rw (e, f) at h in ground arith)
  ]
  | inr (j, e) ↦
      let z : i ≡ suc j = let q = rw e at h in ground arith in rw z (last_index-Lacks s b j e)
]
