-- ===== src/Tests/Cpus.antt =====
-- A table of processors.
use sisop_mendez.Base.{if◌then◌else◌, none, refl, some, ◌==◌, ◌||◌, ◌≡◌}
use sisop_mendez.Kern.Cpus.{
  add_cpu, config_of, init_from, is_signed, mp_init, mpsearch, no_cpus, or_rom, read_entries,
  search_mp, sum_bytes,
}
use sisop_mendez.Kern.Memory.{Memory}

-- An entry for each 20 bytes, the last of nine with the flag of the processor that boots.
abbrev nine_entries : Memory
nine_entries a = if a == 163 then 2 else 0

nine_run : (read_entries nine_entries 0 8 no_cpus).ncpu ≡ 8
unfolding read_entries add_cpu
nine_run = refl

-- The processor that boots has no place in the array of 8.
boot_run : (read_entries nine_entries 0 9 no_cpus).bootcpu ≡ 8
unfolding read_entries add_cpu
boot_run = refl

-- A structure with its signature and its checksum, in the second place.
abbrev bios : Memory
bios a =
    if a == 16 || a == 19
    then b'_'
    else if a == 17
    then b'M'
    else if a == 18
    then b'P'
    else if a == 20
    then 165
    else 0

search_run : search_mp bios 0 4 ≡ some 16
unfolding search_mp is_signed sum_bytes
search_run = refl

no_pages_run : mp_init bios 0 ≡ none
unfolding mpsearch config_of init_from or_rom
no_pages_run = refl
