-- ===== src/IdMaps/Ranges.antt =====
-- container.go: which line of the file `subIDRange` takes its range from.
use curimata.Common.{
  ◌⊎◌, ◌||◌, ◌∙◌, bytes_eq, bytes_eq_iff, Bool-cases, ℕ, ◌≤◌, ◌≡◌, ◌≢◌, ◌↔◌, inl, inr, refl, ap,
  true, false, List, [], ◌∷◌, ◌++◌, Option, none, some, arith, Bytes, bytes_eq_refl, All, Lacks,
  All-append, All-mono, Option-cases, ok,
}
use curimata.Common.Int.{ℤ, pos}
use curimata.Text.Trim.{trim_space, trim_space_id, NonSpace, is_space}
use curimata.Text.Fields.{split, split-append, split-Lacks, split-cons, split-some}
use curimata.Text.Number.{itoa, atoi, atoi-itoa, itoa-IsDigit, IsDigit, max_int}
use curimata.IdMaps.{
  SubIdFile, entry_of, entry_fields, both_numbers, scan_lines, sub_id_range, user_name,
}

-- A line grants the user a range if it holds, without the space around it, an owner, a start and a count between
-- two colons: the owner is the user's name or number, and the others are the decimal texts of the range.
abbrev pub IsGrant : Bytes → ℕ → Bytes → ℤ × ℤ → Type 0
IsGrant name host_id line range =
    (owner : Bytes) × (start : Bytes) × (count : Bytes) × (trim_space line
      ≡ owner ++ (b':' ∷ (start ++ (b':' ∷ count))))
    × (Lacks b':' owner × Lacks b':' start × Lacks b':' count)
    × ((owner ≡ name) ⊎ (owner ≡ itoa host_id))
    × (atoi start ≡ some range.0)
    × (atoi count ≡ some range.1)

-- The first line that grants the user a range.
pub record FirstEntry (name : Bytes) (host_id : ℕ) (lines : List Bytes) (range : ℤ × ℤ)
    : Type 0 where
  pub before : List Bytes
  pub line : Bytes
  pub after : List Bytes
  pub are_lines : lines ≡ before ++ (line ∷ after)
  pub no_entries : All (λ l. (r : ℤ × ℤ) → IsGrant name host_id l r → ⊥) before
  pub is_entry : IsGrant name host_id line range

-- Three fields.
split-three :
    (line a b c : Bytes)
    → split line b':' ≡ a ∷ b ∷ c ∷ []
    → (line ≡ a ++ (b':' ∷ (b ++ (b':' ∷ c)))) × (Lacks b':' a × Lacks b':' b × Lacks b':' c)
split-three line a b c h =
    let (la, first) = split-cons line b':' a (b ∷ c ∷ []) h in
    elim first [
      | inl (z, y) ↦ absurd (let bad = z in cc)
      | inr (s, y, k) ↦
          let (lb, second) = split-cons s b':' b (c ∷ []) k in
          elim second [
            | inl (z, x) ↦ absurd (let bad = z in cc)
            | inr (t, x, m) ↦
                let (lc, third) = split-cons t b':' c [] m in
                elim third [
                  | inl (z, w) ↦ (rw (y, x, w) refl, (la, lb, lc))
                  | inr (u, w, o) ↦ absurd (let (f, fs, e) = split-some u b':' in cc)
                ]
          ]
    ]

both_numbers_iff :
    (start count : Bytes) (range : ℤ × ℤ)
    → (both_numbers start count ≡ some range)
      ↔ ((atoi start ≡ some range.0) × (atoi count ≡ some range.1))
unfolding both_numbers
both_numbers_iff start count range = elim (Option-cases (atoi start)) [
  | inl e ↦ (λ h. absurd (let bad = rw (e, both_numbers) at h in cc), λ (h, k). absurd (cc))
  | inr (s, e) ↦ elim (Option-cases (atoi count)) [
    | inl f ↦ (λ h. absurd (let bad = rw (e, f, both_numbers) at h in cc), λ (h, k). absurd (cc))
    | inr (c, f) ↦ (
      λ h.
          let pair : some (s, c) ≡ some range = rw (e, f, both_numbers) at h in
          let same : (s, c) ≡ range = cc in
          (e ∙ ap (λ (r : ℤ × ℤ). some r.0) same, f ∙ ap (λ (r : ℤ × ℤ). some r.1) same),
      λ (h, k).
          let one : s ≡ range.0 = cc in
          let two : c ≡ range.1 = cc in rw (e, f, both_numbers, one, two) refl,
    )
  ]
]

owner_iff :
    (owner name : Bytes) (host_id : ℕ)
    → ((bytes_eq owner name || bytes_eq owner (itoa host_id)) ≡ true)
      ↔ ((owner ≡ name) ⊎ (owner ≡ itoa host_id))
owner_iff owner name host_id = elim (Bool-cases (bytes_eq owner name)) [
  | inl e ↦ (λ h. inl ((bytes_eq_iff owner name).0 e), λ h. rw e refl)
  | inr e ↦ (
    λ h. inr ((bytes_eq_iff owner (itoa host_id)).0 (rw e at h)),
    λ h. elim h [
      | inl q ↦ absurd (let bad = (bytes_eq_iff owner name).1 q in cc)
      | inr q ↦ rw e ((bytes_eq_iff owner (itoa host_id)).1 q)
    ],
  )
]

entry_fields-three :
    (name : Bytes) (host_id : ℕ) (fields : List Bytes) (range : ℤ × ℤ)
    → entry_fields name host_id fields ≡ some range
    → (a : Bytes) × (b : Bytes) × (c : Bytes) × (fields ≡ a ∷ b ∷ c ∷ [])
      × ((a ≡ name) ⊎ (a ≡ itoa host_id))
      × (both_numbers b c ≡ some range)
unfolding entry_fields
entry_fields-three name host_id [] range h = absurd (let bad = h in cc)
entry_fields-three name host_id (a ∷ []) range h = absurd (let bad = h in cc)
entry_fields-three name host_id (a ∷ b ∷ []) range h = absurd (let bad = h in cc)
entry_fields-three name host_id (a ∷ b ∷ c ∷ d ∷ rest) range h = absurd (let bad = h in cc)
entry_fields-three name host_id (a ∷ b ∷ c ∷ []) range h =
    elim (Bool-cases (bytes_eq a name || bytes_eq a (itoa host_id))) [
      | inl e ↦ (a, b, c, refl, (owner_iff a name host_id).0 e, rw (e, entry_fields) at h)
      | inr e ↦ absurd (let bad = rw (e, entry_fields) at h in cc)
    ]

entry_of-IsGrant :
    (name : Bytes) (host_id : ℕ) (line : Bytes) (range : ℤ × ℤ)
    → entry_of name host_id line ≡ some range
    → IsGrant name host_id line range
unfolding entry_of
entry_of-IsGrant name host_id line range h =
    let (a, b, c, fields, owner, numbers) =
      entry_fields-three name host_id (split (trim_space line) b':') range h in
    let (text, lacks) = split-three (trim_space line) a b c fields in
    let (start, count) = (both_numbers_iff b c range).0 numbers in
    (a, b, c, text, lacks, owner, start, count)

IsGrant-entry_of :
    (name : Bytes) (host_id : ℕ) (line : Bytes) (range : ℤ × ℤ)
    → IsGrant name host_id line range
    → entry_of name host_id line ≡ some range
unfolding entry_of entry_fields
IsGrant-entry_of name host_id line range (a, b, c, text, (la, lb, lc), owner, start, count) =
    let mine = (owner_iff a name host_id).1 owner in
    rw
      (
        text,
        split-append a (b ++ (b':' ∷ c)) b':' la,
        split-append b c b':' lb,
        split-Lacks c b':' lc,
        entry_fields,
        mine,
      )
      ((both_numbers_iff b c range).1 (start, count))

no_entry-IsGrant :
    (name : Bytes) (host_id : ℕ) (line : Bytes)
    → entry_of name host_id line ≡ none
    → (r : ℤ × ℤ) → IsGrant name host_id line r
    → ⊥
no_entry-IsGrant name host_id line h r g = let e = IsGrant-entry_of name host_id line r g in cc

IsGrant-no_entry :
    (name : Bytes) (host_id : ℕ) (line : Bytes)
    → ((r : ℤ × ℤ) → IsGrant name host_id line r → ⊥)
    → entry_of name host_id line ≡ none
IsGrant-no_entry name host_id line h = elim (Option-cases (entry_of name host_id line)) [
  | inl e ↦ e
  | inr (r, e) ↦ absurd (h r (entry_of-IsGrant name host_id line r e))
]

scan_lines-FirstEntry :
    (name : Bytes) (host_id : ℕ) (complete : _) (lines : List Bytes) {range : ℤ × ℤ}
    → scan_lines name host_id complete lines ≡ ok range
    → FirstEntry name host_id lines range
unfolding scan_lines
scan_lines-FirstEntry name host_id true [] h = absurd (cc)
scan_lines-FirstEntry name host_id false [] h = absurd (cc)
scan_lines-FirstEntry name host_id complete (line ∷ lines) {range} h =
    elim (Option-cases (entry_of name host_id line)) [
      | inr (r, e) ↦ record {
        before = [];
        line = line;
        after = lines;
        are_lines = refl;
        no_entries = tt;
        is_entry =
            entry_of-IsGrant name host_id line range (let q = rw (e, scan_lines) at h in rw e (cc));
      }
      | inl e ↦
          let f = scan_lines-FirstEntry name host_id complete lines (rw (e, scan_lines) at h) in
          record {
            before = line ∷ f.before;
            line = f.line;
            after = f.after;
            are_lines = ap (λ (ls : List Bytes). line ∷ ls) f.are_lines;
            no_entries = (no_entry-IsGrant name host_id line e, f.no_entries);
            is_entry = f.is_entry;
          }
    ]

scan_lines-append :
    (name : Bytes) (host_id : ℕ) (complete : _) (before : List Bytes) (line : Bytes)
    (after : List Bytes) {range : ℤ × ℤ}
    → All (λ l. (r : ℤ × ℤ) → IsGrant name host_id l r → ⊥) before
    → IsGrant name host_id line range
    → scan_lines name host_id complete (before ++ (line ∷ after)) ≡ ok range
unfolding scan_lines
scan_lines-append name host_id complete [] line after {range} h g =
    let e = IsGrant-entry_of name host_id line range g in rw (e, scan_lines) refl
scan_lines-append name host_id complete (b ∷ before) line after (h, hs) e =
    let none_there = IsGrant-no_entry name host_id b h in
    rw (none_there, scan_lines) (scan_lines-append name host_id complete before line after hs e)

-- In a file that was opened, the range is that of the first line that grants the user one: a line with the owner, the
-- start and the count between two colons, whose owner is the user's name or number. There is a range if and only
-- if there is such a line, and lines before it that grant the user none are passed over.
pub sub_id_range_iff :
    (current : Option Bytes) (file : SubIdFile) (host_id : ℕ) (range : ℤ × ℤ)
    → (sub_id_range current (some file) host_id ≡ ok range)
      ↔ FirstEntry (user_name current host_id) host_id file.lines range
unfolding sub_id_range
sub_id_range_iff current file host_id range =
    let name = user_name current host_id in
    (
      scan_lines-FirstEntry name host_id file.complete file.lines,
      λ f. rw f.are_lines (
          scan_lines-append name host_id file.complete f.before f.line f.after f.no_entries
            f.is_entry),
    )

itoa_field : (n : ℕ) → All (λ c. NonSpace c × (c ≢ b':')) (itoa n)
unfolding is_space
itoa_field n =
    All-mono IsDigit (λ c. NonSpace c × (c ≢ b':')) (λ c d. (ground arith, omega arith)) (itoa n)
      (itoa-IsDigit n)

field-NonSpace : (xs : Bytes) → All (λ c. NonSpace c × (c ≢ b':')) xs → All NonSpace xs
field-NonSpace xs h = All-mono (λ c. NonSpace c × (c ≢ b':')) NonSpace (λ c p. p.0) xs h

field-Lacks : (xs : Bytes) → All (λ c. NonSpace c × (c ≢ b':')) xs → Lacks b':' xs
field-Lacks xs h = All-mono (λ c. NonSpace c × (c ≢ b':')) (λ c. c ≢ b':') (λ c p. p.1) xs h

both_numbers-itoa :
    (start count : ℕ)
    → start ≤ max_int
    → count ≤ max_int
    → both_numbers (itoa start) (itoa count) ≡ some (pos start, pos count)
unfolding both_numbers
both_numbers-itoa start count hs hc = rw (atoi-itoa start hs, atoi-itoa count hc, both_numbers) refl

-- The line that grants a user a range, as the tools of the system write it, is read as that range: for a
-- name without spaces and colons, and numbers that an int64 holds.
entry_of-granted :
    (name : Bytes) (host_id start count : ℕ)
    → All (λ c. NonSpace c × (c ≢ b':')) name
    → start ≤ max_int
    → count ≤ max_int
    → entry_of name host_id (name ++ (b':' ∷ (itoa start ++ (b':' ∷ itoa count))))
      ≡ some (pos start, pos count)
unfolding entry_of entry_fields
entry_of-granted name host_id start count plain hs hc =
    let line = name ++ (b':' ∷ (itoa start ++ (b':' ∷ itoa count))) in
    let colon : All (λ c. is_space c ≡ false) (b':' ∷ []) = (unfold is_space in refl, tt) in
    let numbers =
      All-append NonSpace (itoa start) (b':' ∷ itoa count)
        (field-NonSpace (itoa start) (itoa_field start))
        (colon.0, field-NonSpace (itoa count) (itoa_field count)) in
    let spaces =
      All-append NonSpace name (b':' ∷ (itoa start ++ (b':' ∷ itoa count)))
        (field-NonSpace name plain) (colon.0, numbers) in
    rw
      (
        trim_space_id line spaces,
        split-append name (itoa start ++ (b':' ∷ itoa count)) b':' (field-Lacks name plain),
        split-append (itoa start) (itoa count) b':' (field-Lacks (itoa start) (itoa_field start)),
        split-Lacks (itoa count) b':' (field-Lacks (itoa count) (itoa_field count)),
        entry_fields,
        bytes_eq_refl name,
      )
      (both_numbers-itoa start count hs hc)
