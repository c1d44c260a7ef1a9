-- ===== src/Box/Remove/Locks.antt =====
-- box.go: `removeBoxes` works on a box only under its lock, and what a valid name is.
use curimata.Common.{
  ℕ, ◌≤◌, ◌≡◌, ◌≢◌, refl, inl, inr, true, List, [], ◌∷◌, ◌++◌, Option, none, some, arith, Bytes,
  All, Lacks, Bool-cases, Option-cases, length,
}
use curimata.Box.Remove.{
  World, Action, lock, unlock, kill_scope, destroy_scope, remove_state, destroy_container,
  remove_tree, remove_box, named, around, remove_each, remove_boxes, is_box_name, are_name_bytes,
  is_name_byte, is_name_start,
}
use curimata.Box.Remove.Safety.{IsSafe, AreSafe-All, remove_box-IsSafe}

abbrev IsInner : Action → Type 0
IsInner lock = ⊥
IsInner unlock = ⊥
IsInner x = Unit

-- The name whose lock is held, through the actions; a name is locked only if it is valid.
unfoldable pub Holds : Option Bytes → List (Bytes × Action) → Type 0
Holds none [] = Unit
Holds (some m) [] = ⊥
Holds none ((n, lock) ∷ xs) = (is_box_name n ≡ true) × Holds (some n) xs
Holds none ((n, x) ∷ xs) = ⊥
Holds (some m) ((n, lock) ∷ xs) = ⊥
Holds (some m) ((n, unlock) ∷ xs) = (m ≡ n) × Holds none xs
Holds (some m) ((n, x) ∷ xs) = (m ≡ n) × Holds (some m) xs

named-Holds :
    (m : Bytes) (xs : List Action) (rest : List (Bytes × Action))
    → All IsInner xs
    → Holds none rest
    → Holds (some m) (named m xs ++ ((m, unlock) ∷ rest))
unfolding Holds named
named-Holds m [] rest h v = (refl, v)
named-Holds m (lock ∷ xs) rest (h, hs) v = absurd h
named-Holds m (unlock ∷ xs) rest (h, hs) v = absurd h
named-Holds m (kill_scope ∷ xs) rest (h, hs) v = (refl, named-Holds m xs rest hs v)
named-Holds m (destroy_scope ∷ xs) rest (h, hs) v = (refl, named-Holds m xs rest hs v)
named-Holds m (remove_state ∷ xs) rest (h, hs) v = (refl, named-Holds m xs rest hs v)
named-Holds m (destroy_container ∷ xs) rest (h, hs) v = (refl, named-Holds m xs rest hs v)
named-Holds m (remove_tree ∷ xs) rest (h, hs) v = (refl, named-Holds m xs rest hs v)

IsSafe-IsInner : (w : World) (before : List Action) (a : Action) → IsSafe w before a → IsInner a
unfolding IsSafe
IsSafe-IsInner w before lock h = h
IsSafe-IsInner w before unlock h = h
IsSafe-IsInner w before kill_scope h = tt
IsSafe-IsInner w before destroy_scope h = tt
IsSafe-IsInner w before remove_state h = tt
IsSafe-IsInner w before destroy_container h = tt
IsSafe-IsInner w before remove_tree h = tt

remove_box-IsInner : (w : World) → All IsInner (remove_box w).actions
remove_box-IsInner w =
    AreSafe-All w IsInner [] (remove_box w).actions (IsSafe-IsInner w) (remove_box-IsSafe w)

-- One box, and what follows it.
own-Holds :
    (name : Bytes) (w : World) (rest : List (Bytes × Action))
    → is_box_name name ≡ true
    → Holds none rest
    → Holds none (around name (remove_box w).actions rest)
unfolding Holds around
own-Holds name w rest h v =
    (h, named-Holds name (remove_box w).actions rest (remove_box-IsInner w) v)

no_actions : Holds none []
unfolding Holds
no_actions = tt

remove_each-Holds : (boxes : List (Bytes × World)) → Holds none (remove_each boxes).0
unfolding remove_each
remove_each-Holds [] = no_actions
remove_each-Holds ((name, w) ∷ more) =
    let rest = remove_each-Holds more in
    elim (Bool-cases (is_box_name name)) [
      | inr a ↦ rw a no_actions
      | inl a ↦ elim (Bool-cases w.locked) [
        | inr b ↦ rw (a, b) no_actions
        | inl b ↦ elim (Option-cases (remove_box w).error) [
          | inl c ↦ rw (a, b, c, remove_each) (own-Holds name w (remove_each more).0 a rest)
          | inr (x, c) ↦ rw (a, b, c, remove_each) (own-Holds name w [] a no_actions)
        ]
      ]
    ]

-- However the system answers about each box, `removeBoxes` locks one valid name at a time, does everything
-- to a box between taking and releasing its lock, and holds no lock at the end.
pub remove_boxes-Holds : (boxes : List (Bytes × World)) → Holds none (remove_boxes boxes).0
unfolding remove_boxes
remove_boxes-Holds [] = no_actions
remove_boxes-Holds (b ∷ boxes) = remove_each-Holds (b ∷ boxes)

name_bytes_plain : (s : Bytes) → are_name_bytes s ≡ true → Lacks b'/' s
unfolding are_name_bytes is_name_byte is_name_start
name_bytes_plain [] h = tt
name_bytes_plain (c ∷ s) h = (ground arith, name_bytes_plain s (ground arith))

-- A valid name is one component of a path, of 1 to 64 bytes: it has no slash, and begins with neither a dot
-- nor a dash.
is_box_name_component :
    (name : Bytes)
    → is_box_name name ≡ true
    → (c : ℕ) × (s : Bytes) × (name ≡ c ∷ s)
      × (c ≢ b'.')
      × (c ≢ b'-')
      × Lacks b'/' name
      × (length name ≤ 64)
unfolding is_box_name is_name_start
is_box_name_component [] h = absurd (cc)
is_box_name_component (c ∷ s) h = (
  c,
  s,
  refl,
  ground arith,
  ground arith,
  (ground arith, name_bytes_plain s (ground arith)),
  ground arith,
)
