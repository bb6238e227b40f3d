-- ===== src/Su/Allowed.antt =====
-- Which users kernel/patch/common/sucompat.c allows to become another user.
use kpm_syscall_backtrace.Base.{
  ℕ, suc, ◌+◌, ◌*◌, ◌/◌, ◌%◌, ◌^◌, ◌<◌, ◌==◌, ◌≡◌, ◌≢◌, ◌⊎◌, refl, ap, sym, ◌∙◌, arith, inl, inr,
  if◌then◌else◌, Bool, Bool-cases, ==_iff, true, false, none, some, List, get_or,
}
use kpm_syscall_backtrace.Kstorage.{
  Storage, Rc, ok, get_kstorage, remove_kstorage, source_bytes, read_bytes,
}
use kpm_syscall_backtrace.Kstorage.Invariant.{IsWf}
use kpm_syscall_backtrace.Kstorage.Laws.{Other, Written, write_kstorage-get, remove_kstorage-get}
use kpm_syscall_backtrace.Su.{
  SuProfile, profile_bytes, profile_size, uid_at, is_su_allow_uid, su_add_allow_uid,
  su_remove_allow_uid, su_allow_uid_profile,
}

-- Another key of the same group, for a user or for a second one.
other_of : ℕ → ℕ → ℕ
other_of uid uid' = if uid' == uid then suc uid else uid'

other_of-Other : (gid uid uid' : ℕ) → Other gid uid gid (other_of uid uid')
unfolding other_of
other_of-Other gid uid uid' = inr (ground arith)

other_of-other : (uid uid' : ℕ) → (uid' == uid) ≡ false → other_of uid uid' ≡ uid'
unfolding other_of
other_of-other uid uid' e = rw (e) refl

-- The four bytes of a uid are the uid.
uid_of_bytes :
    (uid : ℕ)
    → uid < 2 ^ 32
    → uid % 256
        + uid / 256 % 256 * 256
        + uid / 65536 % 256 * 65536
        + uid / 16777216 % 256 * 16777216
      ≡ uid
uid_of_bytes uid small = omega (arith, small)

module _ (vmalloc : ℕ → Bool) (gid : ℕ) (s : Storage) (uid to_uid : ℕ) (scontext : List ℕ) where
  abbrev profile : SuProfile
  profile = record { uid = uid; to_uid = to_uid; scontext = scontext }

  abbrev stored : List ℕ
  stored = read_bytes (λ a. get_or (profile_bytes profile) a 0) 0 profile_size

  stored_uids :
      uid < 2 ^ 32 → to_uid < 2 ^ 32 → (uid_at stored 0 ≡ uid) × (uid_at stored 4 ≡ to_uid)
  unfolding profile_bytes
  stored_uids small small' = (uid_of_bytes uid small, uid_of_bytes to_uid small')

  -- Adding a user fails and changes nothing, or returns 0: the user is then allowed, with the user that
  -- it may become, and every other user is allowed as before.
  abbrev pub Added : ℕ → Rc × Storage → Type 0
  Added uid' (rc, s') =
      ((rc ≢ ok) × (s' ≡ s))
      ⊎ ((rc ≡ ok)
          × (is_su_allow_uid gid s' uid'
              ≡ (if uid' == uid then true else is_su_allow_uid gid s uid'))
          × (su_allow_uid_profile gid s' uid ≡ some (uid, to_uid)))

  allow-here :
      (s' : Storage) (bytes : List ℕ)
      → get_kstorage s' gid uid
        ≡ some (record { gid = gid; did = uid; dlen = profile_size; bytes = bytes })
      → uid_at bytes 0 ≡ uid
      → is_su_allow_uid gid s' uid ≡ true
  unfolding is_su_allow_uid
  allow-here s' bytes e same = rw (e, is_su_allow_uid) (ground (arith, same))

  profile-here :
      (s' : Storage) (bytes : List ℕ)
      → get_kstorage s' gid uid
        ≡ some (record { gid = gid; did = uid; dlen = profile_size; bytes = bytes })
      → su_allow_uid_profile gid s' uid ≡ some (uid_at bytes 0, uid_at bytes 4)
  unfolding su_allow_uid_profile
  profile-here s' bytes e = rw (e, su_allow_uid_profile) refl

-- The answer for a user depends on the record of the user only.
allow-same :
    (gid : ℕ) (s s' : Storage) (uid : ℕ)
    → get_kstorage s' gid uid ≡ get_kstorage s gid uid
    → is_su_allow_uid gid s' uid ≡ is_su_allow_uid gid s uid
unfolding is_su_allow_uid
allow-same gid s s' uid e = rw (e, is_su_allow_uid) refl

-- What the source's bytes become is what was stored.
copied_lem :
    (vmalloc : ℕ → Bool) (p : SuProfile) (copied : List ℕ)
    → source_bytes vmalloc
        (λ addr len. inl 14)
        (λ a. get_or (profile_bytes p) a 0)
        (0 + 0)
        profile_size
        false
      ≡ inr copied
    → read_bytes (λ a. get_or (profile_bytes p) a 0) 0 profile_size ≡ copied
unfolding source_bytes
copied_lem vmalloc p copied e = cc

-- Once one user's answer is known and the record of the second is as before, so is each user's answer.
others_lem :
    (gid : ℕ) (s s' : Storage) (uid uid' : ℕ) (answer : Bool)
    → is_su_allow_uid gid s' uid ≡ answer
    → get_kstorage s' gid (other_of uid uid') ≡ get_kstorage s gid (other_of uid uid')
    → is_su_allow_uid gid s' uid' ≡ (if uid' == uid then answer else is_su_allow_uid gid s uid')
others_lem gid s s' uid uid' answer here elsewhere = elim (Bool-cases (uid' == uid)) [
  | inl e ↦ rw (e, (==_iff uid' uid).0 e) here
  | inr e ↦ rw (e) (
      allow-same gid s s' uid' (
        ap (get_kstorage s' gid) (sym (other_of-other uid uid' e))
        ∙ elsewhere
        ∙ ap (get_kstorage s gid) (other_of-other uid uid' e)))
]

module _ (vmalloc : ℕ → Bool) (gid : ℕ) (s : Storage) (uid to_uid : ℕ) (scontext : List ℕ) where
  Written-Added :
      (r : Rc × Storage) (uid' : ℕ)
      → uid < 2 ^ 32
      → to_uid < 2 ^ 32
      → Written vmalloc
          (λ addr len. inl 14)
          (λ a.
            get_or (profile_bytes (record { uid = uid; to_uid = to_uid; scontext = scontext })) a 0)
          s
          gid
          uid
          0
          0
          profile_size
          false
          gid
          (other_of uid uid')
          r
      → Added vmalloc gid s uid to_uid scontext uid' r
  Written-Added (rc, s') uid' small small' (inl refused) = inl refused
  Written-Added (rc, s') uid' small small' (inr (copied, src, done, here, elsewhere)) =
      let same = copied_lem vmalloc (profile vmalloc gid s uid to_uid scontext) copied src in
      let (a, b) = stored_uids vmalloc gid s uid to_uid scontext small small' in
      inr (
        done,
        others_lem gid s s' uid uid' true
            (allow-here vmalloc gid s uid to_uid scontext s' copied here
              (ap (λ bytes. uid_at bytes 0) (sym same) ∙ a))
            elsewhere,
        profile-here vmalloc gid s uid to_uid scontext s' copied here
            ∙ sym (ap (λ bytes. some (uid_at bytes 0, uid_at bytes 4)) same)
            ∙ (rw (a, b) refl),
      )

-- On a well-formed storage, and for uids below 2 ^ 32: adding a user fails and changes nothing, or it
-- returns 0, and then the user is allowed and may become the user given, and any other user is allowed
-- just if it was before.
pub su_add_allow_uid-Added :
    (vmalloc : ℕ → Bool) (gid : ℕ) (s : Storage) (uid to_uid : ℕ) (scontext : List ℕ) (uid' : ℕ)
    → IsWf s
    → uid < 2 ^ 32
    → to_uid < 2 ^ 32
    → Added vmalloc gid s uid to_uid scontext uid'
        (su_add_allow_uid vmalloc gid s uid to_uid scontext)
unfolding su_add_allow_uid
su_add_allow_uid-Added vmalloc gid s uid to_uid scontext uid' wf small small' =
    Written-Added vmalloc gid s uid to_uid scontext _ uid' small small' (
      write_kstorage-get vmalloc (λ addr len. inl 14)
        (λ a.
          get_or (profile_bytes (record { uid = uid; to_uid = to_uid; scontext = scontext })) a 0)
        s gid uid 0 0 profile_size false gid (other_of uid uid') wf (other_of-Other gid uid uid'))

allow-absent :
    (gid : ℕ) (s : Storage) (uid : ℕ)
    → get_kstorage s gid uid ≡ none
    → is_su_allow_uid gid s uid ≡ false
unfolding is_su_allow_uid
allow-absent gid s uid e = rw (e, is_su_allow_uid) refl

-- On a well-formed storage, when the removal of a user returns 0 the user is not allowed any more, and any
-- other user is allowed just if it was before.
pub su_remove_allow_uid-Removed :
    (gid : ℕ) (s : Storage) (uid uid' : ℕ)
    → IsWf s
    → (su_remove_allow_uid gid s uid).0 ≡ ok
    → is_su_allow_uid gid (su_remove_allow_uid gid s uid).1 uid'
      ≡ (if uid' == uid then false else is_su_allow_uid gid s uid')
unfolding su_remove_allow_uid
su_remove_allow_uid-Removed gid s uid uid' wf done =
    let (gone, elsewhere) =
      remove_kstorage-get s gid uid gid (other_of uid uid') wf (other_of-Other gid uid uid') done in
    others_lem gid s (remove_kstorage s gid uid).1 uid uid' false
      (allow-absent gid (remove_kstorage s gid uid).1 uid gone) elsewhere
