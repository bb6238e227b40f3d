-- ===== src/Symbol/Tests.antt =====
-- symbol.c on a table of two entries, and the theorem about it there.
use kpm_syscall_backtrace.Base.{◌+◌, ◌-◌, ◌%◌, ◌^◌, ◌≡◌, refl, arith, List, [], ◌∷◌, codes}
use kpm_syscall_backtrace.Symbol.{KpSymbol, symbol_lookup_name, symbol_init}
use kpm_syscall_backtrace.Symbol.Lookup.{ByName, lookup-ByName}

abbrev table : List KpSymbol
table =
    record { addr = 0x1000; name = codes "hook"; hash = 0 }
    ∷ record { addr = 0x2000; name = codes "unhook"; hash = 0 }
    ∷ []

found : symbol_lookup_name (symbol_init 0x1000 0x9000 table) (codes "unhook") ≡ 0xa000
unfolding symbol_lookup_name symbol_init
found = refl

lookup-ByName_example :
    ByName
      (codes "unhook")
      (λ addr. (addr + 2 ^ 64 - 0x1000 + 0x9000) % 2 ^ 64)
      table
      (symbol_lookup_name (symbol_init 0x1000 0x9000 table) (codes "unhook"))
lookup-ByName_example =
    lookup-ByName 0x1000 0x9000 table (codes "unhook") (ground arith) (ground arith)
