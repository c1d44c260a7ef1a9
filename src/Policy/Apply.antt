-- ===== src/Policy/Apply.antt =====
-- policy.go: which setting `apply` takes from the file.
use curimata.Common.{
  ◌≡◌, inl, inr, refl, sym, Option-cases, Bool, true, false, not, ◌&&◌, [], Option, none, some,
  Bytes, codes, bytes_eq, if◌then◌else◌,
}
use curimata.Policy.{Policy, PolicyLimits, Settings, apply}

-- The value of a setting: the command line's if it gives the flag, else the file's if that states one.
unfoldable setting : {A : Type 0} → Bool → Option A → A → A
setting true from_file current = current
setting false none current = current
setting false (some a) current = a

-- An empty image is none.
unfoldable image_of : {F : Type 0} → Option (Policy F) → Option Bytes
image_of none = none
image_of (some p) = if bytes_eq p.image [] then none else some p.image

unfoldable limit_of : {F A : Type 0} → (PolicyLimits F → Option A) → Option (Policy F) → Option A
limit_of get none = none
limit_of get (some p) = elim p.limits [ none ↦ none | some l ↦ get l ]

setting-none : {A : Type 0} (b : Bool) (current : A) → setting b none current ≡ current
unfolding setting
setting-none true current = refl
setting-none false current = refl

setting_field :
    {A : Type 0} (b : Bool) (o : Option A) (current : A)
    → (elim o [ none ↦ current | some a ↦ if not b then a else current ]) ≡ setting b o current
unfolding setting
setting_field true none current = refl
setting_field true (some a) current = refl
setting_field false none current = refl
setting_field false (some a) current = refl

setting_image :
    (empty b : Bool) (image current : Bytes)
    → (if not empty && not b then image else current)
      ≡ setting b (if empty then none else some image) current
unfolding setting
setting_image true b image current = sym (setting-none b current)
setting_image false true image current = refl
setting_image false false image current = refl

-- For the image and for each limit, the command line wins over the file, and the file over the value that
-- stands without either; the file has no say in the use of systemd.
apply-setting :
    {F : Type 0} (p : Option (Policy F)) (set : Bytes → Bool) (s : Settings F)
    → let t = apply p set s in
      (t.image ≡ setting (set (codes "image")) (image_of p) s.image)
      × (t.lim.memory_mib
          ≡ setting (set (codes "memory")) (limit_of (λ l. l.memory_mib) p) s.lim.memory_mib)
      × (t.lim.pids ≡ setting (set (codes "pids")) (limit_of (λ l. l.pids) p) s.lim.pids)
      × (t.lim.cpus ≡ setting (set (codes "cpus")) (limit_of (λ l. l.cpus) p) s.lim.cpus)
      × (t.lim.no_systemd ≡ s.lim.no_systemd)
unfolding apply image_of limit_of
apply-setting none set s = (
  sym (setting-none (set (codes "image")) s.image),
  sym (setting-none (set (codes "memory")) s.lim.memory_mib),
  sym (setting-none (set (codes "pids")) s.lim.pids),
  sym (setting-none (set (codes "cpus")) s.lim.cpus),
  refl,
)
apply-setting (some p) set s =
    let image = setting_image (bytes_eq p.image []) (set (codes "image")) p.image s.image in
    elim (Option-cases p.limits) [
      | inl e ↦
          rw (e, apply, limit_of)
            (
              image,
              sym (setting-none (set (codes "memory")) s.lim.memory_mib),
              sym (setting-none (set (codes "pids")) s.lim.pids),
              sym (setting-none (set (codes "cpus")) s.lim.cpus),
              refl,
            )
      | inr (l, e) ↦
          rw (e, apply, limit_of)
            (
              image,
              setting_field (set (codes "memory")) l.memory_mib s.lim.memory_mib,
              setting_field (set (codes "pids")) l.pids s.lim.pids,
              setting_field (set (codes "cpus")) l.cpus s.lim.cpus,
              refl,
            )
    ]
