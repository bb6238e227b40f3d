-- ===== src/Kallsym/Relo.antt =====
-- The table of relocations that tools/kallsym.c looks for in a kernel image and applies to it.
use kpm_syscall_backtrace.Base.{
  ℕ, zero, suc, ◌+◌, ◌-◌, ◌*◌, ◌/◌, ◌%◌, ◌^◌, ◌==◌, ltb, leb, if◌then◌else◌, bit_and, Bool, true,
  false, ◌&&◌, ◌||◌, not, Option, none, some,
}
use kpm_syscall_backtrace.Order.{uint_unpack, load, store64}
use kpm_syscall_backtrace.Kallsym.{Info}
use kpm_syscall_backtrace.Kallsym.Correct.{elf64_kernel_min_va}

abbrev pub arm64_relo_min_num : ℕ
arm64_relo_min_num = 4000

abbrev pub elf64_kernel_max_va : ℕ
elf64_kernel_max_va = 0xffffffffffffffff

-- The result of the functions that change the image: whether it is 0, the state and the image.
abbrev pub Worked : Type 0
Worked = Bool × Info × (ℕ → ℕ)

module _ (host_is_be : Bool) (imglen : ℕ) where
  module _ (info : Info) where
    -- `r_offset`, `r_info` and `r_addend` of an entry.
    abbrev pub word_at : (ℕ → ℕ) → ℕ → ℕ
    word_at img pos = uint_unpack host_is_be img pos 8 info.is_be

    abbrev pub is_relative : (ℕ → ℕ) → ℕ → Bool
    is_relative img cand =
        bit_and (word_at img cand) 0xffff000000000000 == 0xffff000000000000
        && word_at img (cand + 8) == 0x403

    abbrev pub is_blank : (ℕ → ℕ) → ℕ → Bool
    is_blank img cand =
        word_at img cand == 0 && word_at img (cand + 8) == 0 && word_at img (cand + 16) == 0

    -- The addend, if it is a smaller address of a page of the kernel.
    abbrev pub lower_va : ℕ → ℕ → ℕ
    lower_va addend kernel_va =
        if bit_and addend 0xfff == 0 && leb elf64_kernel_min_va addend && ltb addend kernel_va
        then addend
        else kernel_va

    -- The place where the loop ends, the number of entries and the lowest address.
    unfoldable pub entries_from : (ℕ → ℕ) → ℕ → ℕ → ℕ → ℕ → ℕ × ℕ × ℕ
    unfolding uint_unpack
    entries_from img zero cand rela_num kernel_va = (cand, rela_num, kernel_va)
    entries_from img (suc fuel) cand rela_num kernel_va =
        let relative : Bool = is_relative img cand in
        let entry : Bool = relative || not (rela_num == 0) && is_blank img cand in
        let rest =
          entries_from img fuel (if entry then cand + 24 else cand + 8)
            (if entry then suc rela_num else 0)
            (if relative
              then lower_va (word_at img (cand + 16)) kernel_va
              else if entry
              then kernel_va
              else elf64_kernel_max_va) in
        if leb (imglen - 24) cand || not entry && leb arm64_relo_min_num rela_num
        then (cand, rela_num, kernel_va)
        else rest

    -- Down to an entry with no word 0; `none` is a read before the image.
    unfoldable pub last_entry : (ℕ → ℕ) → ℕ → ℕ → Option ℕ
    last_entry img zero cand_end = none
    last_entry img (suc fuel) cand_end =
        let rest = if ltb cand_end 24 then none else last_entry img fuel (cand_end - 24) in
        if load host_is_be img cand_end 8 == 0
          || load host_is_be img (cand_end + 8) 8 == 0
          || load host_is_be img (cand_end + 16) 8 == 0
        then rest
        else some cand_end

    -- `offset < 0 || offset >= max_offset`, where the offset is an int32_t.
    abbrev pub is_bad_offset : ℕ → Bool
    is_bad_offset offset = leb (2 ^ 31) offset || leb (imglen - 8) offset

    -- The entries that are left, the number applied and the image. The value is whether no offset was bad.
    unfoldable pub apply_from : ℕ → ℕ → ℕ → ℕ → (ℕ → ℕ) → Bool × ℕ × (ℕ → ℕ)
    unfolding uint_unpack
    apply_from kernel_va zero cand applied img = (true, applied, img)
    apply_from kernel_va (suc n) cand applied img =
        let r_offset : ℕ = word_at img cand in
        let r_addend : ℕ = word_at img (cand + 16) in
        let offset : ℕ = (r_offset + 2 ^ 64 - kernel_va) % 2 ^ 32 in
        let value : ℕ = word_at img offset in
        let skipped : Bool =
          is_blank img cand
          || leb r_offset kernel_va
          || leb (elf64_kernel_max_va - imglen) r_offset in
        let kept : Bool = skipped || value == r_addend in
        let rest =
          apply_from kernel_va n (cand + 24) (if kept then applied else suc applied)
            (if kept then img else store64 host_is_be img offset ((value + r_addend) % 2 ^ 64)) in
        if not skipped && is_bad_offset offset then (false, applied, img) else rest

    -- `none` is the read before the image. An error after the first entries leaves these applied.
    unfoldable pub try_find_arm64_relo_table : (ℕ → ℕ) → Option Worked
    unfolding entries_from last_entry apply_from
    try_find_arm64_relo_table img =
        if not info.try_relo
        then some (true, info, img)
        else (let (cand, rela_num, lowest) =
              entries_from img (suc imglen) 0 0 elf64_kernel_max_va in
            let kernel_va : ℕ = if info.kernel_base == 0 then lowest else info.kernel_base in
            let based : Info = record info { kernel_base = kernel_va } in
            let start : ℕ = cand - 24 * rela_num in
            elim (if ltb cand 24 then none else last_entry img (suc cand) (cand - 24)) [
              | none ↦ none
              | some last ↦
                  let num : ℕ = (last + 24 - start) / 24 in
                  if ltb num arm64_relo_min_num
                  then some (true, based, img)
                  else (let (good, applied, img') = apply_from kernel_va num start 0 img in
                      some (
                        if good
                        then (
                          true,
                          record based {
                            relo_applied = if leb 2 applied then true else info.relo_applied;
                          },
                          img',
                        )
                        else (false, record based { try_relo = false }, img')))
            ])
