-- ===== src/Box/Remove/Safety.antt =====
-- box.go: what `removeBox` removes, and when.
use curimata.Common.{
  ◌≡◌, ◌≢◌, ◌⊎◌, ◌++◌, refl, inl, inr, Bool, true, false, List, [], ◌∷◌, Option, none, some, All,
  Bool-cases, Option-cases,
}
use curimata.Box.Remove.{
  Loaded, no_state, corrupt_state, unreadable_state, found_container, Found, there, missing,
  unknown, Kill, kill_written, kill_missing, kill_failed, World, Action, lock, unlock, kill_scope,
  destroy_scope, remove_state, destroy_container, remove_tree, RemoveError, bad_scope, bad_state,
  not_cleaned, not_destroyed, Cleared, Removed, failed, stop_leftover_scope, after_scope,
  remove_lost_state, clear_container, clear_stopped_container, remove_directory, remove_box,
}

Found-cases : (f : Found) → (f ≡ there) ⊎ (f ≡ missing) ⊎ (f ≡ unknown)
Found-cases there = inl refl
Found-cases missing = inr (inl refl)
Found-cases unknown = inr (inr refl)

Kill-cases : (k : Kill) → (k ≡ kill_written) ⊎ (k ≡ kill_missing) ⊎ (k ≡ kill_failed)
Kill-cases kill_written = inl refl
Kill-cases kill_missing = inr (inl refl)
Kill-cases kill_failed = inr (inr refl)

-- There is state, and no container can be loaded from it.
abbrev pub IsLost : Loaded → Type 0
IsLost l = (l ≡ no_state) ⊎ (l ≡ corrupt_state)

-- The actions behind earlier ones, the last of which comes first.
abbrev pub onto : List Action → List Action → List Action
onto [] before = before
onto (a ∷ actions) before = onto actions (a ∷ before)

module _ (w : World) where
  -- The scope of the box is stopped, or there is no session that could reach one.
  abbrev pub IsStopped : List Action → Type 0
  IsStopped before =
      ((w.systemd ≡ false) × (before ≡ []))
      ⊎ ((w.scope_destroyed ≡ true) × (earlier : List Action) × (before ≡ destroy_scope ∷ earlier))

  -- There was no state, or it is removed, or its container is destroyed.
  abbrev pub IsCleared : List Action → Type 0
  IsCleared before =
      (IsLost w.loaded × (w.state_directory ≡ missing) × (before ≡ []))
      ⊎ ((w.state_removed ≡ true) × (earlier : List Action) × (before ≡ remove_state ∷ earlier))
      ⊎ ((w.container_destroyed ≡ true) × (before ≡ destroy_container ∷ []))

  -- When an action is right, behind the earlier ones.
  unfoldable pub IsSafe : List Action → Action → Type 0
  IsSafe before kill_scope = IsLost w.loaded × (w.scope_exists ≡ true) × (before ≡ [])
  IsSafe before destroy_scope =
      IsLost w.loaded
      × (((w.scope_exists ≡ false) × (before ≡ []))
          ⊎ ((w.kill ≢ kill_failed) × (before ≡ kill_scope ∷ [])))
  IsSafe before remove_state = IsLost w.loaded × IsStopped before
  IsSafe before destroy_container =
      (w.loaded ≡ found_container) × (w.is_stopped ≡ some true) × (before ≡ [])
  IsSafe before remove_tree = IsCleared before
  IsSafe before lock = ⊥
  IsSafe before unlock = ⊥

  abbrev pub AreSafe : List Action → List Action → Type 0
  AreSafe before [] = Unit
  AreSafe before (a ∷ actions) = IsSafe before a × AreSafe (a ∷ before) actions

  AreSafe-append :
      (before xs ys : List Action)
      → AreSafe before xs
      → AreSafe (onto xs before) ys
      → AreSafe before (xs ++ ys)
  AreSafe-append before [] ys h k = k
  AreSafe-append before (x ∷ xs) ys (h, hs) k = (h, AreSafe-append (x ∷ before) xs ys hs k)

  -- What holds of each action that can be right.
  pub AreSafe-All :
      (P : Action → Type 0) (before xs : List Action)
      → ((b : List Action) (a : Action) → IsSafe b a → P a)
      → AreSafe before xs
      → All P xs
  AreSafe-All P before [] f h = tt
  AreSafe-All P before (x ∷ xs) f (h, hs) = (f before x h, AreSafe-All P (x ∷ before) xs f hs)

  failed-none : (b : Bool) (e : RemoveError) → failed b e ≡ none → b ≡ true
  failed-none true e h = refl
  failed-none false e h = cc

  -- What a stop of the scope does.
  abbrev IsStop : Removed → Type 0
  IsStop r = AreSafe [] r.actions × (r.error ≡ none → IsStopped (onto r.actions []))

  stop_leftover_scope-IsStop : IsLost w.loaded → IsStop (stop_leftover_scope w)
  unfolding stop_leftover_scope IsSafe
  stop_leftover_scope-IsStop lost = elim (Bool-cases w.systemd) [
    | inr a ↦ rw (a, stop_leftover_scope) (tt, λ h. inl (refl, refl))
    | inl a ↦ elim (Bool-cases w.manager) [
      | inr b ↦ rw (a, b, stop_leftover_scope) (tt, λ h. absurd (let bad = h in cc))
      | inl b ↦ elim (Bool-cases w.scope_exists) [
        | inr c ↦
            rw (a, b, c, stop_leftover_scope)
              (
                ((lost, inl (refl, refl)), tt),
                λ h. inr (failed-none w.scope_destroyed bad_scope h, [], refl),
              )
        | inl c ↦ elim (Kill-cases w.kill) [
          | inl e ↦
              rw (a, b, c, e, stop_leftover_scope)
                (
                  ((lost, refl, refl), ((lost, inr ((λ k. cc), refl)), tt)),
                  λ h. inr (failed-none w.scope_destroyed bad_scope h, kill_scope ∷ [], refl),
                )
          | inr (inl e) ↦
              rw (a, b, c, e, stop_leftover_scope)
                (
                  ((lost, refl, refl), ((lost, inr ((λ k. cc), refl)), tt)),
                  λ h. inr (failed-none w.scope_destroyed bad_scope h, kill_scope ∷ [], refl),
                )
          | inr (inr e) ↦
              rw (a, b, c, e, stop_leftover_scope)
                (((lost, refl, refl), tt), λ h. absurd (let bad = h in cc))
        ]
      ]
    ]
  ]

  -- What the clearing of the state does.
  abbrev IsClear : Cleared → Type 0
  IsClear c = AreSafe [] c.actions × (c.error ≡ none → IsCleared (onto c.actions []))

  onto-append :
      (xs : List Action) (a : Action) (before : List Action)
      → onto (xs ++ (a ∷ [])) before ≡ a ∷ onto xs before
  onto-append [] a before = refl
  onto-append (x ∷ xs) a before = onto-append xs a (x ∷ before)

  after_scope-IsClear :
      (xs : List Action) (e : Option RemoveError)
      → IsLost w.loaded
      → AreSafe [] xs
      → (e ≡ none → IsStopped (onto xs []))
      → IsClear (after_scope w (record { actions = xs; error = e }))
  unfolding after_scope IsSafe
  after_scope-IsClear xs (some x) lost safe stopped = (safe, λ h. absurd (let bad = h in cc))
  after_scope-IsClear xs none lost safe stopped = (
    AreSafe-append [] xs (remove_state ∷ []) safe ((lost, stopped refl), tt),
    λ h. inr (
        inl
          (failed-none w.state_removed not_cleaned h, onto xs [], onto-append xs remove_state [])),
  )

  lost-IsClear :
      (f : Found)
      → w.state_directory ≡ f
      → IsLost w.loaded
      → IsClear (elim f [
        | missing ↦ record { actions = []; found = false; error = none }
        | unknown ↦ record { actions = []; found = false; error = some not_cleaned }
        | there ↦ after_scope w (stop_leftover_scope w)
      ])
  lost-IsClear missing e lost = (tt, λ h. inl (lost, e, refl))
  lost-IsClear unknown e lost = (tt, λ h. absurd (let bad = h in cc))
  lost-IsClear there e lost =
      let r = stop_leftover_scope w in
      let (safe, stopped) = stop_leftover_scope-IsStop lost in
      after_scope-IsClear r.actions r.error lost safe stopped

  remove_lost_state-IsClear : IsLost w.loaded → IsClear (remove_lost_state w)
  unfolding remove_lost_state
  remove_lost_state-IsClear lost = lost-IsClear w.state_directory refl lost

  clear_container-IsClear : w.loaded ≡ found_container → IsClear (clear_container w)
  unfolding clear_container IsSafe
  clear_container-IsClear found = elim (Option-cases w.is_stopped) [
    | inl e ↦ rw (e, clear_container) (tt, λ h. absurd (let bad = h in cc))
    | inr (true, e) ↦
        rw (e, clear_container)
          (
            ((found, refl, refl), tt),
            λ h. inr (inr (failed-none w.container_destroyed not_destroyed h, refl)),
          )
    | inr (false, e) ↦ rw (e, clear_container) (tt, λ h. absurd (let bad = h in cc))
  ]

  -- By what could be loaded, which the state of the clearing does not change.
  by_container-IsClear :
      (l : Loaded)
      → w.loaded ≡ l
      → IsClear (elim l [
        | no_state ↦ remove_lost_state w
        | corrupt_state ↦ remove_lost_state w
        | unreadable_state ↦ record { actions = []; found = true; error = some bad_state }
        | found_container ↦ clear_container w
      ])
  by_container-IsClear no_state e = remove_lost_state-IsClear (inl e)
  by_container-IsClear corrupt_state e = remove_lost_state-IsClear (inr e)
  by_container-IsClear unreadable_state e = (tt, λ h. absurd (let bad = h in cc))
  by_container-IsClear found_container e = clear_container-IsClear e

  clear_stopped_container-IsClear : IsClear (clear_stopped_container w)
  unfolding clear_stopped_container
  clear_stopped_container-IsClear = by_container-IsClear w.loaded refl

  remove_directory-AreSafe :
      (xs : List Action) (found : Bool) (e : Option RemoveError)
      → AreSafe [] xs
      → (e ≡ none → IsCleared (onto xs []))
      → AreSafe [] (remove_directory w (record { actions = xs; found = found; error = e })).actions
  unfolding remove_directory IsSafe
  remove_directory-AreSafe xs found (some x) safe cleared = safe
  remove_directory-AreSafe xs found none safe cleared = elim (Found-cases w.box_directory) [
    | inl f ↦
        rw (f, remove_directory) (AreSafe-append [] xs (remove_tree ∷ []) safe (cleared refl, tt))
    | inr (inl f) ↦ rw (f, remove_directory) safe
    | inr (inr f) ↦ rw (f, remove_directory) safe
  ]

-- Whatever the system answers, each action of `removeBox` comes at its time. A scope is killed, if it exists, and then
-- stopped, only if no container can be loaded from the state. The state directory is removed only then, and only
-- after the scope was stopped without an error, or if there is no systemd session to reach a scope. A container is
-- destroyed only if it is stopped. The box is removed only if there was no state, or right after the state was removed or the
-- container destroyed without an error.
pub remove_box-IsSafe : (w : World) → AreSafe w [] (remove_box w).actions
unfolding remove_box
remove_box-IsSafe w =
    let c = clear_stopped_container w in
    let (safe, cleared) = clear_stopped_container-IsClear w in
    remove_directory-AreSafe w c.actions c.found c.error safe cleared
