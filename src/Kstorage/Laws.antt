-- ===== src/Kstorage/Laws.antt =====
-- What kernel/patch/common/kstorage.c finds after a write or a removal.
use kpm_syscall_backtrace.Base.{
  ℕ, ◌+◌, ◌<◌, ◌≡◌, ◌≢◌, refl, ◌∙◌, ap, arith, Bool, false, leb, ◌⊎◌, inl, inr, Bool-cases,
  Eq-cases, Option-cases, none, some, List, ◌∷◌, if◌then◌else◌,
}
use kpm_syscall_backtrace.Kstorage.{
  Record, Storage, Rc, ok, max_group_num, group, find_did, replace_did, delete_did, link_record,
  source_bytes, write_kstorage, remove_kstorage, get_kstorage,
}
use kpm_syscall_backtrace.Kstorage.Groups.{
  find_did-replace_did, find_did-replace_did_ne, find_did-delete_did, find_did-delete_did_ne,
}
use kpm_syscall_backtrace.Kstorage.Invariant.{
  IsWf, put_group, group-put_group, group-put_group_ne, Writes, refuses, links,
  write_kstorage-Writes,
}

-- Another group, or another key.
abbrev pub Other : ℕ → ℕ → ℕ → ℕ → Type 0
Other gid did gid' did' = (gid' ≢ gid) ⊎ (did' ≢ did)

module _ (s : Storage) (gid : ℕ) (wf : IsWf s) (small : gid < max_group_num) where
  get_kstorage-put_group :
      (rs : List Record) (sizes : List ℕ) (did : ℕ)
      → get_kstorage (put_group s gid rs sizes) gid did ≡ find_did rs did
  unfolding get_kstorage
  get_kstorage-put_group rs sizes did =
      let in_range : leb max_group_num gid ≡ false = ground arith in
      rw (in_range, group-put_group s gid wf small rs sizes) refl

  -- A change of one group that keeps its other keys changes no other key.
  get_kstorage-put_group_ne :
      (rs : List Record) (sizes : List ℕ) (did gid' did' : ℕ)
      → (did' ≢ did → find_did rs did' ≡ find_did (group s gid) did')
      → Other gid did gid' did'
      → get_kstorage (put_group s gid rs sizes) gid' did' ≡ get_kstorage s gid' did'
  unfolding get_kstorage
  get_kstorage-put_group_ne rs sizes did gid' did' keeps other = elim (Eq-cases gid' gid) [
    | inl e ↦ elim other [
      | inl ne ↦ absurd (ne e)
      | inr ne ↦
          rw (e, group-put_group s gid wf small rs sizes)
            (ap (λ r. if leb max_group_num gid then none else r) (keeps ne))
    ]
    | inr ne ↦ rw (group-put_group_ne s gid wf small rs sizes gid' ne) refl
  ]

  link_record-get :
      (did : ℕ) (new : Record) (gid' did' : ℕ)
      → new.did ≡ did
      → Other gid did gid' did'
      → (get_kstorage (link_record s gid did new) gid did ≡ some new)
        × (get_kstorage (link_record s gid did new) gid' did' ≡ get_kstorage s gid' did')
  unfolding link_record find_did
  link_record-get did new gid' did' d other = elim (Option-cases (find_did (group s gid) did)) [
    | inl e ↦
        rw (e, link_record)
          (
            get_kstorage-put_group (new ∷ group s gid) _ did ∙ ground arith,
            get_kstorage-put_group_ne (new ∷ group s gid) _ did gid' did' (λ ne. ground arith)
                other,
          )
    | inr (old, e) ↦
        rw (e, link_record)
          (
            get_kstorage-put_group (replace_did (group s gid) did new) _ did
                ∙ find_did-replace_did did (group s gid) old new e d,
            get_kstorage-put_group_ne (replace_did (group s gid) did new) _ did gid' did'
                (find_did-replace_did_ne did (group s gid) new did' d) other,
          )
  ]

module _ (vmalloc : ℕ → Bool) (memdup_user : ℕ → ℕ → ℕ ⊎ List ℕ) (mem : ℕ → ℕ) (s : Storage)
    (gid did addr offset len : ℕ) (data_is_user : Bool) (gid' did' : ℕ) where
  abbrev src : ℕ ⊎ List ℕ
  src = source_bytes vmalloc memdup_user mem (addr + offset) len data_is_user

  -- Either the write is refused and changes nothing, or the record of its bytes is there, and every
  -- other key has what it had.
  abbrev pub Written : Rc × Storage → Type 0
  Written (rc, s') =
      ((rc ≢ ok) × (s' ≡ s))
      ⊎ ((copied : List ℕ) × (src ≡ inr copied)
          × (rc ≡ ok)
          × (get_kstorage s' gid did
              ≡ some (record { gid = gid; did = did; dlen = len; bytes = copied }))
          × (get_kstorage s' gid' did' ≡ get_kstorage s gid' did'))

  Writes-Written :
      (r : Rc × Storage) → IsWf s → Other gid did gid' did' → Writes s gid did len src r → Written r
  Writes-Written _ wf other (refuses rc ne) = inl (ne, refl)
  Writes-Written _ wf other (links copied e small) =
      let (here, elsewhere) = link_record-get s gid wf small did _ gid' did' refl other in
      inr (copied, e, refl, here, elsewhere)

  -- On a well-formed storage and for any other key, `write_kstorage` either returns another value than 0
  -- and changes nothing, or it has copied the bytes, returns 0, `get_kstorage` finds the record of these
  -- bytes, and finds for the other key what it found before.
  pub write_kstorage-get :
      IsWf s
      → Other gid did gid' did'
      → Written (write_kstorage vmalloc memdup_user mem s gid did addr offset len data_is_user)
  write_kstorage-get wf other =
      Writes-Written _ wf other
        (write_kstorage-Writes vmalloc memdup_user mem s gid did addr offset len data_is_user)

get_kstorage-absent :
    (s : Storage) (gid did : ℕ) → find_did (group s gid) did ≡ none → get_kstorage s gid did ≡ none
unfolding get_kstorage
get_kstorage-absent s gid did e = ground arith

-- On a well-formed storage and for any other key, after `remove_kstorage` returns 0 `get_kstorage` finds
-- no record for the key removed, and finds for the other key what it found before.
pub remove_kstorage-get :
    (s : Storage) (gid did gid' did' : ℕ)
    → IsWf s
    → Other gid did gid' did'
    → (remove_kstorage s gid did).0 ≡ ok
    → (get_kstorage (remove_kstorage s gid did).1 gid did ≡ none)
      × (get_kstorage (remove_kstorage s gid did).1 gid' did' ≡ get_kstorage s gid' did')
unfolding remove_kstorage
remove_kstorage-get s gid did gid' did' wf other = elim (Bool-cases (leb max_group_num gid)) [
  | inl large ↦ rw (large, remove_kstorage) (λ e. cc)
  | inr small ↦ elim (Option-cases (find_did (group s gid) did)) [
    | inl e ↦ rw (small, e, remove_kstorage) (λ q. (get_kstorage-absent s gid did e, refl))
    | inr (old, e) ↦
        let in_range : gid < max_group_num = ground arith in
        rw (small, e, remove_kstorage)
          (λ q. (
            get_kstorage-put_group s gid wf in_range (delete_did (group s gid) did) _ did
                ∙ find_did-delete_did did (group s gid) (wf.unique gid),
            get_kstorage-put_group_ne s gid wf in_range (delete_did (group s gid) did) _ did gid'
                did' (find_did-delete_did_ne did (group s gid) did') other,
          ))
  ]
]
