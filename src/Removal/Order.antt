-- ===== src/Removal/Order.antt =====
-- removetree.go: the order in which the program and its helper act.
use curimata.Common.{
  ◌≡◌, ◌⊎◌, refl, inl, inr, Bool, true, false, List, [], ◌∷◌, Option, none, some, Bytes, codes,
  bytes_eq, ok, err, All, Any,
}
use curimata.Holder.{HolderError, write_id_maps}
use curimata.Agent.{command_of}
use curimata.Removal.{
  Action, own_removal, removal, start, open_pipe, close_reader, close_writer, map_ids, release,
  kill, wait, RemovalError, Removed, all_removed, no_permission, removal_failed, World, Run,
  remove_tree_command, helper_removes, by_stage1, by_stage2, stage1, stage2, after, ended, wait_for,
  killed, go_ahead, guide, closing, by_release, by_start, by_pipe, not_released, not_mapped,
  remove_tree_in_user_namespace, try_own, remove_tree,
}

-- How far the two processes are. From `running` to `removed` the helper lives, and `closed` is the end.
pub data Phase : Type 0 where
  idle piped unstarted running waiting mapped released removed dead reaped closed : Phase

-- What may come next: the helper removes the tree behind its ID map and the go-ahead, is
-- killed only before that, and is waited for before the pipe is closed.
unfoldable pub next : Phase → Action → Option Phase
next idle (own_removal path) = some idle
next idle open_pipe = some piped
next piped (start args) = some running
next piped close_reader = some unstarted
next unstarted close_writer = some closed
next running close_reader = some waiting
next waiting map_ids = some mapped
next waiting kill = some dead
next mapped kill = some dead
next mapped release = some released
next released (removal path) = some removed
next released wait = some reaped
next removed wait = some reaped
next dead wait = some reaped
next reaped close_writer = some closed
next _ _ = none

unfoldable pub follow : List Action → Phase → Option Phase
unfolding next
follow [] p = some p
follow (a ∷ actions) p = elim (next p a) [ none ↦ none | some q ↦ follow actions q ]

-- Nothing is started, or all that was is gone.
abbrev pub IsOver : Option Phase → Type 0
IsOver o = (o ≡ some idle) ⊎ (o ≡ some closed)

-- Only the tree is removed, by the program or by its helper.
abbrev pub IsOf : Bytes → Action → Type 0
IsOf path (own_removal p) = p ≡ path
IsOf path (removal p) = p ≡ path
IsOf path (start args) = Unit
IsOf path open_pipe = Unit
IsOf path close_reader = Unit
IsOf path close_writer = Unit
IsOf path map_ids = Unit
IsOf path release = Unit
IsOf path kill = Unit
IsOf path wait = Unit

-- A run without an error removed the tree, itself or by the helper.
abbrev pub IsGone : World → Bytes → Run → Type 0
IsGone w path r =
    r.result ≡ ok tt
    → (w.own ≡ all_removed) ⊎ ((w.inside ≡ all_removed) × Any (λ a. a ≡ removal path) r.actions)

-- The helper is the program itself, and its two stages remove the path of the first.
helper_removes-path :
    (path : Bytes) (executed : Bool)
    → helper_removes true executed (codes "/proc/self/exe" ∷ remove_tree_command ∷ path ∷ [])
      ≡ (elim executed [ true ↦ some path | false ↦ none ])
unfolding helper_removes by_stage1 by_stage2 stage1 stage2 command_of bytes_eq
helper_removes-path path true = refl
helper_removes-path path false = refl

-- The rest of a run from a phase on, with the helper.
abbrev IsGood : World → Bytes → Phase → Run → Type 0
IsGood w path p r =
    (follow r.actions p ≡ some closed)
    × All (IsOf path) r.actions
    × (r.result ≡ ok tt → (w.inside ≡ all_removed) × Any (λ a. a ≡ removal path) r.actions)

-- One more action before it.
IsGood-after :
    (w : World) (path : Bytes) (p q : Phase) (a : Action) (r : Run)
    → next p a ≡ some q
    → IsOf path a
    → IsGood w path q r
    → IsGood w path p (after (a ∷ []) r)
unfolding follow
IsGood-after w path p q a r step own (followed, all, gone) = (
  rw (step, follow) followed,
  (own, all),
  λ e. let (inside, some_a) = gone e in (inside, inr some_a),
)

ended-inv : (x : Removed) → ended x ≡ ok tt → x ≡ all_removed
ended-inv all_removed e = refl
ended-inv no_permission e = cc
ended-inv removal_failed e = cc

killed-IsGood :
    (w : World) (path : Bytes) (p : Phase) (e : RemovalError)
    → next p kill ≡ some dead
    → IsGood w path p (closing (killed e))
killed-IsGood w path p e h =
    IsGood-after w path p dead kill (record { actions = wait ∷ close_writer ∷ []; result = err e })
      h tt ((unfold follow next in refl), (tt, (tt, tt)), λ x. absurd (let bad = x in cc))

wait_for-IsGood :
    (w : World) (path : Bytes) (o : Option Bytes)
    → (o ≡ none) ⊎ (o ≡ some path)
    → IsGood w path released (closing (wait_for w o))
unfolding wait_for follow next
wait_for-IsGood w path o (inl e) =
    rw (e, wait_for) (refl, (tt, (tt, tt)), λ x. absurd (let bad = x in cc))
wait_for-IsGood w path o (inr e) =
    rw (e, wait_for) (refl, (refl, (tt, (tt, tt))), λ x. (ended-inv w.inside x, inl refl))

helper_removes-cases :
    (path : Bytes) (executed : Bool)
    → let o =
        helper_removes true executed (codes "/proc/self/exe" ∷ remove_tree_command ∷ path ∷ []) in
      (o ≡ none) ⊎ (o ≡ some path)
helper_removes-cases path true = inr (helper_removes-path path true)
helper_removes-cases path false = inl (helper_removes-path path false)

-- The command line of the helper.
abbrev line : Bytes → List Bytes
line path = codes "/proc/self/exe" ∷ remove_tree_command ∷ path ∷ []

by_release-IsGood :
    (b : Bool) (w : World) (path : Bytes)
    → IsGood w path mapped (closing (by_release b w (line path)))
unfolding by_release next
by_release-IsGood false w path = killed-IsGood w path mapped not_released refl
by_release-IsGood true w path =
    let o = helper_removes true w.executed (line path) in
    IsGood-after w path mapped released release (closing (wait_for w o)) refl tt
      (wait_for-IsGood w path o (helper_removes-cases path w.executed))

guide-IsGood :
    (w : World) (path : Bytes) (o : Option HolderError)
    → IsGood w path waiting (closing (guide w (line path) o))
unfolding guide go_ahead next
guide-IsGood w path none =
    IsGood-after w path waiting mapped map_ids (closing (by_release w.released w (line path))) refl
      tt (by_release-IsGood w.released w path)
guide-IsGood w path (some e) = killed-IsGood w path waiting (not_mapped e) refl

-- A run that the program begins.
abbrev IsOrdered : World → Bytes → Run → Type 0
IsOrdered w path r = IsOver (follow r.actions idle) × All (IsOf path) r.actions × IsGone w path r

by_start-IsGood :
    (b : Bool) (w : World) (path : Bytes) → IsGood w path piped (closing (by_start b w (line path)))
unfolding by_start next follow
by_start-IsGood false w path = (refl, (tt, (tt, tt)), λ x. absurd (let bad = x in cc))
by_start-IsGood true w path =
    let rest = closing (guide w (line path) (write_id_maps w.maps)) in
    IsGood-after w path piped running (start (line path)) (after (close_reader ∷ []) rest) refl tt (
      IsGood-after w path running waiting close_reader rest refl tt
        (guide-IsGood w path (write_id_maps w.maps)))

by_pipe-IsOrdered : (b : Bool) (w : World) (path : Bytes) → IsOrdered w path (by_pipe b w path)
unfolding by_pipe next follow
by_pipe-IsOrdered false w path = (inl refl, tt, λ x. absurd (let bad = x in cc))
by_pipe-IsOrdered true w path =
    let (followed, all, gone) =
      IsGood-after w path idle piped open_pipe (closing (by_start w.started w (line path))) refl tt
        (by_start-IsGood w.started w path) in
    (inr followed, all, λ x. inr (gone x))

try_own-IsOrdered :
    (w : World) (path : Bytes) (own : Removed) → w.own ≡ own → IsOrdered w path (try_own own w path)
unfolding try_own remove_tree_in_user_namespace follow
try_own-IsOrdered w path all_removed e = (inl refl, tt, λ x. inl e)
try_own-IsOrdered w path removal_failed e = (inl refl, tt, λ x. absurd (let bad = x in cc))
try_own-IsOrdered w path no_permission e = by_pipe-IsOrdered w.piped w path

-- Whatever fails, only the given tree is removed, and by the helper only once its ID map is written and the go-ahead was
-- given. A helper that was started is waited for, killed before if it has no go-ahead, and the pipe is
-- closed behind it. Without an error the program or the helper removed the tree.
pub remove_tree-IsOrdered :
    (w : World) (path : Bytes)
    → let r = remove_tree w path in
      IsOver (follow r.actions idle) × All (IsOf path) r.actions × IsGone w path r
unfolding remove_tree follow next
remove_tree-IsOrdered w path =
    let (over, all, gone) = try_own-IsOrdered w path w.own refl in
    (
      over,
      (refl, all),
      λ e. elim (gone e) [ inl own ↦ inl own | inr (inside, a) ↦ inr (inside, inr a) ],
    )
