-- ===== src/Kstorage/Invariant.antt =====
-- The invariant of kernel/patch/common/kstorage.c, and that its operations keep it.
use kpm_syscall_backtrace.Base.{
  ℕ, zero, suc, ◌+◌, ◌-◌, ◌<◌, ◌≡◌, ◌≢◌, refl, sym, ◌∙◌, ap, arith, Bool, true, false, leb, ◌⊎◌,
  inl, inr, Bool-cases, Eq-cases, Option-cases, some, List, [], ◌∷◌, length, length-set, get_or,
  set,
}
use kpm_syscall_backtrace.Kstorage.{
  Record, Storage, Rc, ok, enoent, enomem, passed_on, max_group_num, group, find_did, replace_did,
  delete_did, link_record, source_bytes, write_kstorage, remove_kstorage,
}
use kpm_syscall_backtrace.Kstorage.Groups.{
  Unique, replace_did-Unique, length-replace_did, delete_did-Unique, length-delete_did,
}

-- Four groups of records with different keys, and the length of each in `group_sizes`.
pub record IsWf (s : Storage) : Type 0 where
  pub groups_num : length s.groups ≡ max_group_num
  pub sizes_num : length s.group_sizes ≡ max_group_num
  pub sizes : (gid : ℕ) → get_or s.group_sizes gid 0 ≡ length (group s gid)
  pub unique : (gid : ℕ) → Unique (group s gid)

pub get_or-set {ℓ} :
    {A : Type ℓ} (xs : List A) (i : ℕ) (v d : A) → i < length xs → get_or (set xs i v) i d ≡ v
get_or-set [] i v d h = absurd (omega arith)
get_or-set (x ∷ xs) zero v d h = refl
get_or-set (x ∷ xs) (suc i) v d h = get_or-set xs i v d (omega arith)

pub get_or-set_ne {ℓ} :
    {A : Type ℓ} (xs : List A) (i j : ℕ) (v d : A) → j ≢ i → get_or (set xs i v) j d ≡ get_or xs j d
get_or-set_ne [] i j v d ne = refl
get_or-set_ne (x ∷ xs) zero zero v d ne = absurd (ne refl)
get_or-set_ne (x ∷ xs) zero (suc j) v d ne = refl
get_or-set_ne (x ∷ xs) (suc i) zero v d ne = refl
get_or-set_ne (x ∷ xs) (suc i) (suc j) v d ne = get_or-set_ne xs i j v d (λ e. ne (ap suc e))

-- One group replaced, with sizes that fit.
abbrev pub put_group : Storage → ℕ → List Record → List ℕ → Storage
put_group s gid rs sizes = record s { groups = set s.groups gid rs; group_sizes = sizes }

module _ (s : Storage) (gid : ℕ) (wf : IsWf s) (small : gid < max_group_num) where
  pub group-put_group :
      (rs : List Record) (sizes : List ℕ) → group (put_group s gid rs sizes) gid ≡ rs
  group-put_group rs sizes = get_or-set s.groups gid rs [] (omega (arith, wf.groups_num))

  pub group-put_group_ne :
      (rs : List Record) (sizes : List ℕ) (other : ℕ)
      → other ≢ gid
      → group (put_group s gid rs sizes) other ≡ group s other
  group-put_group_ne rs sizes other ne = get_or-set_ne s.groups gid other rs [] ne

  put_group-IsWf :
      (rs : List Record) (sizes : List ℕ)
      → Unique rs
      → length sizes ≡ max_group_num
      → get_or sizes gid 0 ≡ length rs
      → ((g : ℕ) → g ≢ gid → get_or sizes g 0 ≡ get_or s.group_sizes g 0)
      → IsWf (put_group s gid rs sizes)
  put_group-IsWf rs sizes u num here elsewhere = record {
    groups_num = length-set s.groups gid rs ∙ wf.groups_num;
    sizes_num = num;
    sizes = λ g. elim (Eq-cases g gid) [
      | inl e ↦ rw (e, group-put_group rs sizes) here
      | inr ne ↦ elsewhere g ne ∙ wf.sizes g ∙ ap length (sym (group-put_group_ne rs sizes g ne))
    ];
    unique = λ g. elim (Eq-cases g gid) [
      | inl e ↦ rw (e, group-put_group rs sizes) u
      | inr ne ↦ rw (group-put_group_ne rs sizes g ne) (wf.unique g)
    ];
  }

  sized :
      (rs : List Record) (n : ℕ)
      → Unique rs
      → n ≡ length rs
      → IsWf (put_group s gid rs (set s.group_sizes gid n))
  sized rs n u e =
      put_group-IsWf rs (set s.group_sizes gid n) u (length-set s.group_sizes gid n ∙ wf.sizes_num)
        (get_or-set s.group_sizes gid n 0 (omega (arith, wf.sizes_num)) ∙ e)
        (λ g ne. get_or-set_ne s.group_sizes gid g n 0 ne)

  pub link_record-IsWf : (did : ℕ) (new : Record) → new.did ≡ did → IsWf (link_record s gid did new)
  unfolding link_record
  link_record-IsWf did new d = elim (Option-cases (find_did (group s gid) did)) [
    | inl e ↦
        rw (e, link_record)
          (sized (new ∷ group s gid) (suc (get_or s.group_sizes gid 0)) (rw d e, wf.unique gid)
            (ap suc (wf.sizes gid)))
    | inr (old, e) ↦
        rw (e, link_record)
          (put_group-IsWf (replace_did (group s gid) did new) s.group_sizes
            (replace_did-Unique did (group s gid) new d (wf.unique gid)) wf.sizes_num
            (wf.sizes gid ∙ sym (length-replace_did did (group s gid) new)) (λ g ne. refl))
  ]

  pub delete-IsWf :
      (did : ℕ) (old : Record)
      → find_did (group s gid) did ≡ some old
      → IsWf (
          put_group s gid
            (delete_did (group s gid) did)
            (set s.group_sizes gid (get_or s.group_sizes gid 0 - 1)))
  delete-IsWf did old e =
      sized (delete_did (group s gid) did) (get_or s.group_sizes gid 0 - 1)
        (delete_did-Unique did (group s gid) (wf.unique gid))
        (omega (arith, wf.sizes gid, length-delete_did did (group s gid) old e))

-- Whether `write_kstorage` refuses, with its value, or links a record of the bytes that it has copied.
pub data Writes (s : Storage) (gid did len : ℕ) (source : ℕ ⊎ List ℕ) : Rc × Storage → Type 0 where
  refuses : (rc : Rc) → rc ≢ ok → Writes s gid did len source (rc, s)
  links :
      (copied : List ℕ)
      → source ≡ inr copied
      → gid < max_group_num
      → Writes s gid did len source
          (ok, link_record s gid did (record { gid = gid; did = did; dlen = len; bytes = copied }))

module _ (vmalloc : ℕ → Bool) (memdup_user : ℕ → ℕ → ℕ ⊎ List ℕ) (mem : ℕ → ℕ) (s : Storage)
    (gid did addr offset len : ℕ) (data_is_user : Bool) where
  abbrev pub source : ℕ ⊎ List ℕ
  source = source_bytes vmalloc memdup_user mem (addr + offset) len data_is_user

  abbrev pub written : Rc × Storage
  written = write_kstorage vmalloc memdup_user mem s gid did addr offset len data_is_user

  Writes-copied :
      (leb max_group_num gid) ≡ false
      → vmalloc len ≡ true
      → (r : ℕ ⊎ List ℕ) → source ≡ r
      → Writes s gid did len source written
  unfolding write_kstorage
  Writes-copied small room (inl e) q =
      rw (small, room, q, write_kstorage) (refuses (passed_on e) (λ q. cc))
  Writes-copied small room (inr copied) q =
      rw (small, room, q, write_kstorage) (links copied refl (ground arith))

  pub write_kstorage-Writes : Writes s gid did len source written
  unfolding write_kstorage
  write_kstorage-Writes = elim (Bool-cases (leb max_group_num gid)) [
    | inl large ↦ rw (large, write_kstorage) (refuses enoent (λ e. cc))
    | inr small ↦ elim (Bool-cases (vmalloc len)) [
      | inl room ↦ Writes-copied small room source refl
      | inr full ↦ rw (small, full, write_kstorage) (refuses enomem (λ e. cc))
    ]
  ]

  Writes-IsWf :
      (source : ℕ ⊎ List ℕ) (r : Rc × Storage) → Writes s gid did len source r → IsWf s → IsWf r.1
  Writes-IsWf src _ (refuses rc ne) wf = wf
  Writes-IsWf src _ (links copied e small) wf = link_record-IsWf s gid wf small did _ refl

  -- `write_kstorage` keeps the invariant, whatever it returns.
  pub write_kstorage-IsWf : IsWf s → IsWf written.1
  write_kstorage-IsWf wf = Writes-IsWf source written write_kstorage-Writes wf

-- `remove_kstorage` keeps the invariant, whatever it returns.
pub remove_kstorage-IsWf : (s : Storage) (gid did : ℕ) → IsWf s → IsWf (remove_kstorage s gid did).1
unfolding remove_kstorage
remove_kstorage-IsWf s gid did wf = elim (Bool-cases (leb max_group_num gid)) [
  | inl large ↦ rw (large, remove_kstorage) wf
  | inr small ↦ elim (Option-cases (find_did (group s gid) did)) [
    | inl e ↦ rw (small, e, remove_kstorage) wf
    | inr (old, e) ↦ rw (small, e, remove_kstorage) (delete-IsWf s gid wf (ground arith) did old e)
  ]
]
