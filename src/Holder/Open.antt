-- ===== src/Holder/Open.antt =====
-- netns.go: what is open when `startNetnsHolder` returns.
use curimata.Common.{
  ℕ, zero, suc, ◌≡◌, refl, ◌∙◌, inl, inr, Bool, true, false, not, List, [], ◌∷◌, ◌++◌, Option, none,
  some, if◌then◌else◌, Bool-cases, Option-cases, Result, ok, err,
}
use curimata.Holder.{
  Resource, parent_sock, child_sock, ready_reader, ready_writer, helper, received, listener, Action,
  open_it, close_it, HolderError, Received, adopted, adoption_failed, receipt_failed, World,
  write_id_maps, close_listeners, stop, receive, set_up, start_helper, start_netns_holder,
}

unfoldable pub is_same : Resource → Resource → Bool
is_same parent_sock parent_sock = true
is_same child_sock child_sock = true
is_same ready_reader ready_reader = true
is_same ready_writer ready_writer = true
is_same helper helper = true
is_same received received = true
is_same listener listener = true
is_same _ _ = false

-- Closes one resource of a kind; none if nothing of the kind is open.
unfoldable pub close_one : Resource → List Resource → Option (List Resource)
unfolding is_same
close_one x [] = none
close_one x (y ∷ held) =
    let rest = close_one x held in
    if is_same x y then some held else elim rest [ none ↦ none | some left ↦ some (y ∷ left) ]

unfoldable pub act_all : List Action → List Resource → Option (List Resource)
unfolding close_one
act_all [] held = some held
act_all (open_it x ∷ actions) held = act_all actions (x ∷ held)
act_all (close_it x ∷ actions) held = elim (close_one x held) [
  | none ↦ none
  | some left ↦ act_all actions left
]

abbrev pub with_listeners : ℕ → List Resource → List Resource
with_listeners zero held = held
with_listeners (suc n) held = listener ∷ with_listeners n held

-- While the helper is set up.
abbrev set : List Resource
set = helper ∷ ready_writer ∷ parent_sock ∷ []

act_all-append :
    (xs ys : List Action) (held mid : List Resource)
    → act_all xs held ≡ some mid
    → act_all (xs ++ ys) held ≡ act_all ys mid
unfolding act_all
act_all-append [] ys held mid h = let e : held ≡ mid = cc in rw e refl
act_all-append (open_it x ∷ xs) ys held mid h = act_all-append xs ys (x ∷ held) mid h
act_all-append (close_it x ∷ xs) ys held mid h = elim (Option-cases (close_one x held)) [
  | inl e ↦ let bad = rw (e, act_all) at h in cc
  | inr (left, e) ↦ rw (e, act_all) (act_all-append xs ys left mid (rw (e, act_all) at h))
]

-- One listener for each address.
abbrev pub for_each : List Received → List Resource → List Resource
for_each [] held = held
for_each (a ∷ more) held = for_each more (listener ∷ held)

-- What stays open behind a step: all the listeners if it succeeds.
abbrev left_open : List Received → List Resource → Result HolderError (Unit {0}) → List Resource
left_open sockets held (ok u) = for_each sockets held
left_open sockets held (err e) = parent_sock ∷ []

stop-closes : (n : ℕ) → act_all (stop n) (with_listeners n set) ≡ some (parent_sock ∷ [])
unfolding stop close_listeners act_all
stop-closes zero = refl
stop-closes (suc n) = stop-closes n

receive-open :
    (n : ℕ) (sockets : List Received)
    → act_all (receive n sockets).actions (with_listeners n set)
      ≡ some (left_open sockets (with_listeners n set) (receive n sockets).result)
unfolding receive act_all close_one
receive-open n [] = refl
receive-open n (receipt_failed ∷ more) = stop-closes n
receive-open n (adoption_failed ∷ more) = stop-closes n
receive-open n (adopted ∷ more) = receive-open (suc n) more

set_up-open :
    (w : World) (o : Option HolderError)
    → act_all (set_up w o).actions set ≡ some (left_open w.sockets set (set_up w o).result)
unfolding set_up
set_up-open w (some e) = stop-closes 0
set_up-open w none = elim (Bool-cases w.released) [
  | inl e ↦ rw e (receive-open 0 w.sockets)
  | inr e ↦ rw e (stop-closes 0)
]

-- What a step leaves open once the deferred call has closed the parent's end.
abbrev end : List Received → Result HolderError (Unit {0}) → List Resource
end sockets (ok u) = for_each sockets (helper ∷ ready_writer ∷ [])
end sockets (err e) = []

close_one-for_each :
    (sockets : List Received) (held less : List Resource)
    → close_one parent_sock held ≡ some less
    → close_one parent_sock (for_each sockets held) ≡ some (for_each sockets less)
unfolding close_one
close_one-for_each [] held less h = h
close_one-for_each (a ∷ more) held less h =
    close_one-for_each more (listener ∷ held) (listener ∷ less) (rw (h, close_one) refl)

parent-closed :
    (sockets : List Received) (r : Result HolderError (Unit {0}))
    → act_all (close_it parent_sock ∷ []) (left_open sockets set r) ≡ some (end sockets r)
unfolding act_all close_one
parent-closed sockets (err e) = refl
parent-closed sockets (ok u) =
    rw (close_one-for_each sockets set (helper ∷ ready_writer ∷ []) refl, act_all) refl

-- What stays open in the end. The helper and its pipe live as long as the listeners.
unfoldable pub left : World → List Resource
unfolding set_up write_id_maps
left w =
    if not w.paired
    then []
    else if not w.piped
    then child_sock ∷ []
    else if not w.started
    then ready_writer ∷ ready_reader ∷ child_sock ∷ []
    else end w.sockets (set_up w (write_id_maps w)).result

-- Nothing is closed that is not open. A holder that is returned has one listener for each address, with the
-- helper and its pipe, and nothing else open; an error behind the start of the helper leaves nothing open, but
-- one before it leaves the child's ends that exist by then.
pub start_netns_holder-left :
    (w : World) → act_all (start_netns_holder w).actions [] ≡ some (left w)
unfolding start_netns_holder start_helper left act_all close_one
start_netns_holder-left w =
    let inner = set_up w (write_id_maps w) in
    elim (Bool-cases w.paired) [
      | inr a ↦ rw (a, start_netns_holder, left) refl
      | inl a ↦ elim (Bool-cases w.piped) [
        | inr b ↦ rw (a, b, start_netns_holder, left) refl
        | inl b ↦ elim (Bool-cases w.started) [
          | inr c ↦ rw (a, b, c, start_netns_holder, left) refl
          | inl c ↦
              rw (a, b, c, start_netns_holder, left)
                (act_all-append inner.actions (close_it parent_sock ∷ []) set
                    (left_open w.sockets set inner.result) (set_up-open w (write_id_maps w))
                  ∙ parent-closed w.sockets inner.result)
        ]
      ]
    ]
