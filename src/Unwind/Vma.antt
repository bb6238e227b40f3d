-- ===== src/Unwind/Vma.antt =====
-- get_vma_info_str of stack_unwind.c: the file and the offset of an address.
use kpm_syscall_backtrace.Base.{
  ℕ, zero, suc, ◌+◌, ◌-◌, ◌%◌, ◌^◌, ◌==◌, leb, ltb, if◌then◌else◌, Bool, not, ◌&&◌, ◌||◌, Option,
  none, some, List, [], ◌∷◌, ◌++◌,
}
use kpm_syscall_backtrace.Unwind.{
  Functions, Area, Info, named, unnamed, anonymous, Event, down_read, up_read, gets_page,
  frees_page,
}
use kpm_syscall_backtrace.Unwind.Name.{my_kbasename}

-- What the kernel answers to one call: the `mm` of the task, whether the lock is taken, what
-- `find_vma` returns, the memory areas by their addresses, the page that is allocated, and the path that
-- `file_path` puts together, `none` for an error.
pub record Answers : Type 0 where
  pub mm : ℕ
  pub locked : Bool
  pub found : ℕ
  pub areas : ℕ → Area
  pub page : ℕ
  pub path : Option (List ℕ)

-- The loop that goes back over the areas of the file, `n` times at most.
unfoldable pub base_back : (ℕ → Area) → ℕ → ℕ → ℕ → ℕ → ℕ
base_back areas file zero curr base = base
base_back areas file (suc n) curr base =
    let prev = (areas curr).vm_prev in
    let further = base_back areas file n prev (areas prev).vm_start in
    if prev == 0 then base else if (areas prev).vm_file == file then further else base

unfoldable pub base_address : (ℕ → Area) → ℕ → ℕ
unfolding base_back
base_address areas vma =
    let area = areas vma in
    if area.vm_file == 0 then area.vm_start else base_back areas area.vm_file 10 vma area.vm_start

unfoldable pub info_of_file : Functions → Answers → ℕ → Option Info × List Event
unfolding my_kbasename
info_of_file f a offset =
    if f.g_file_path && f.g_get_free_page && f.g_free_page
    then if a.page == 0 then (some (unnamed offset), gets_page a.page ∷ []) else (
      some (elim a.path [ some p ↦ named (my_kbasename p) offset | none ↦ unnamed offset ]),
      gets_page a.page ∷ frees_page a.page ∷ [],
    )
    else (some (unnamed offset), [])

-- The area's file is `file`, 0 for none.
unfoldable pub info_of_area : Functions → Answers → ℕ → ℕ → Option Info × List Event
unfolding info_of_file
info_of_area f a file offset =
    if file == 0 then (some (anonymous offset), []) else info_of_file f a offset

-- What is printed for an area that was found, under the lock.
unfoldable pub info_under_lock : Functions → Answers → ℕ → Option Info × List Event
unfolding base_address info_of_area
info_under_lock f a ip =
    let area = a.areas a.found in
    let offset = (ip + 2 ^ 64 - base_address a.areas a.found) % 2 ^ 64 in
    if a.found == 0
    then (none, [])
    else if ltb ip area.vm_start || leb area.vm_end ip
    then (none, [])
    else info_of_area f a area.vm_file offset

-- `none` is the return value 0 with nothing printed.
unfoldable pub get_vma_info_str : Functions → Answers → ℕ → Option Info × List Event
unfolding info_under_lock
get_vma_info_str f a ip =
    let (info, events) = info_under_lock f a ip in
    if a.mm == 0 || not (f.g_find_vma && f.g_down_read_trylock && f.g_up_read && f.g_snprintf)
    then (none, [])
    else if a.locked
    then (info, (down_read ∷ events) ++ up_read ∷ [])
    else (none, [])
