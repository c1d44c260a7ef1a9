-- ===== src/Dirs/Private.antt =====
-- dirs.go: the runtime directory belongs to the user alone.
use curimata.Common.{
  ℕ, ◌%◌, ◌≡◌, ◌⊎◌, ap, sym, refl, inl, inr, Bool, true, false, ◌++◌, Option, none, some, arith,
  Bytes, codes, Result, ok, Result-cases,
}
use curimata.Text.Number.{itoa}
use curimata.Dirs.{
  Info, is_owner, check_private_dir, Mkdir, created, exists_already, failed, World, join_path,
  checked_temp, unless_failed, temp_runtime_dir, fallback_runtime_dir, DirError,
}

-- A directory of the user that no group and no other user can access.
pub record IsPrivate (found : Option Info) (uid : ℕ) : Type 0 where
  pub info : Info
  pub is_found : found ≡ some info
  pub is_directory : info.is_dir ≡ true
  pub is_own : info.owner ≡ some uid
  pub is_closed : info.permissions % 64 ≡ 0

is_owner-some : (o : Option ℕ) (uid : ℕ) → is_owner o uid ≡ true → o ≡ some uid
is_owner-some none uid h = absurd (cc)
is_owner-some (some o) uid h = ground arith

check_private_dir-IsPrivate :
    (found : Option Info) (uid : ℕ) → check_private_dir found uid ≡ ok tt → IsPrivate found uid
unfolding check_private_dir
check_private_dir-IsPrivate none uid h = absurd (cc)
check_private_dir-IsPrivate (some i) uid h = record {
  info = i;
  is_found = refl;
  is_directory = ground arith;
  is_own = is_owner-some i.owner uid (ground arith);
  is_closed = ground arith;
}

unless_failed_ok :
    (m : Mkdir) (checked : Result DirError (Bytes × Bool)) {r : Bytes × Bool}
    → unless_failed m checked ≡ ok r
    → checked ≡ ok r
unless_failed_ok failed checked h = absurd (cc)
unless_failed_ok created checked h = h
unless_failed_ok exists_already checked h = h

checked_temp-IsPrivate :
    (found : Option Info) (path : Bytes) (uid : ℕ) {r : Bytes × Bool}
    → checked_temp found path uid ≡ ok r
    → (r ≡ (path, true)) × IsPrivate found uid
unfolding checked_temp
checked_temp-IsPrivate found path uid h = elim (Result-cases (check_private_dir found uid)) [
  | inr (x, e) ↦ absurd (let q = rw (e, checked_temp) at h in cc)
  | inl (u, e) ↦ (let q = rw (e, checked_temp) at h in cc, check_private_dir-IsPrivate found uid e)
]

-- The directory that is handed out was found to be private: it is the user's own below the first root, or,
-- once it was made or found there, the one below the second root.
fallback_runtime_dir-IsPrivate :
    (w : World) (user_root temp_root : Bytes) (uid : ℕ) (path : Bytes) (in_temp : Bool)
    → fallback_runtime_dir w user_root temp_root uid ≡ ok (path, in_temp)
    → ((in_temp ≡ false) × (path ≡ join_path user_root (itoa uid)) × IsPrivate (w.before path) uid)
      ⊎ ((in_temp ≡ true)
          × (path ≡ join_path temp_root (codes "curimata-" ++ itoa uid))
          × IsPrivate (w.after path) uid)
unfolding fallback_runtime_dir temp_runtime_dir
fallback_runtime_dir-IsPrivate w user_root temp_root uid path in_temp h =
    let user = join_path user_root (itoa uid) in
    let temp = join_path temp_root (codes "curimata-" ++ itoa uid) in
    elim (Result-cases (check_private_dir (w.before user) uid)) [
      | inl (u, e) ↦
          let q : (user, false) ≡ (path, in_temp) =
            let s = rw (e, fallback_runtime_dir) at h in cc in
          let same : user ≡ path = ap (λ (x : Bytes × Bool). x.0) q in
          let flag : false ≡ in_temp = ap (λ (x : Bytes × Bool). x.1) q in
          inl (sym flag, sym same, rw same at (check_private_dir-IsPrivate (w.before user) uid e))
      | inr (x, e) ↦
          let s = rw (e, fallback_runtime_dir) at h in
          let (q, v) =
            checked_temp-IsPrivate (w.after temp) temp uid (unless_failed_ok w.mkdir _ s) in
          let same : path ≡ temp = ap (λ (x : Bytes × Bool). x.0) q in
          let flag : in_temp ≡ true = ap (λ (x : Bytes × Bool). x.1) q in
          inr (flag, same, rw same v)
    ]
