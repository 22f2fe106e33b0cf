-- ===== src/Kern/Cpus.antt =====
-- kern/mpconfig.c: the search for the tables of the BIOS and `mp_init`. The memory is the function
-- from physical addresses to bytes; `none` is a panic of KADDR, beyond the pages there are. The
-- ports that switch the interrupts are not written.
pub mod Entries
use sisop_mendez.Base.{
  Bool, List, Option, [], false, if◌then◌else◌, leb, length, ltb, none, not, some, suc, true, zero,
  ℕ, ◌%◌, ◌&&◌, ◌*◌, ◌+◌, ◌-◌, ◌/◌, ◌==◌, ◌^◌, ◌||◌, ◌∷◌,
}
use sisop_mendez.Kern.Memory.{Memory}
use sisop_mendez.Kern.Pages.{pgsize, update}
use sisop_mendez.Kern.Types.{word}

abbrev pub ncpus : ℕ
ncpus = 8

abbrev pub read16 : Memory → ℕ → ℕ
read16 mem a = mem a + 256 * mem (a + 1)

abbrev pub read32 : Memory → ℕ → ℕ
read32 mem a = read16 mem a + 2 ^ 16 * read16 mem (a + 2)

abbrev pub is_kaddr : ℕ → ℕ → Bool
is_kaddr npages pa = ltb (pa / pgsize) npages

-- The loop of `sum`, whose result is cut to a byte.
unfoldable pub sum_bytes : Memory → ℕ → ℕ → ℕ
sum_bytes mem a zero = 0
sum_bytes mem a (suc n) = mem a + sum_bytes mem (a + 1) n

abbrev pub sum : Memory → ℕ → ℕ → ℕ
sum mem a len = sum_bytes mem a len % 256

-- `memcmp` with a signature of four bytes
unfoldable pub is_signed : Memory → ℕ → List ℕ → Bool
is_signed mem a [] = true
is_signed mem a (c ∷ s) = mem a == c && is_signed mem (a + 1) s

abbrev pub is_mp : Memory → ℕ → Bool
is_mp mem a = is_signed mem a (b'_' ∷ b'M' ∷ b'P' ∷ b'_' ∷ []) && sum mem a 16 == 0

-- The loop of `mpsearch1`; `none` is NULL.
unfoldable pub search_mp : Memory → ℕ → ℕ → Option ℕ
search_mp mem a zero = none
search_mp mem a (suc n) = elim (is_mp mem a) [ true ↦ some a | false ↦ search_mp mem (a + 16) n ]

unfoldable pub mpsearch1 : Memory → ℕ → ℕ → ℕ → Option (Option ℕ)
mpsearch1 mem npages a len =
    if is_kaddr npages a && is_kaddr npages ((a + len) % word)
    then some (search_mp mem a ((len + 15) / 16))
    else none

-- The search in the BIOS ROM, if nothing was found.
unfoldable pub or_rom : Memory → ℕ → Option (Option ℕ) → Option (Option ℕ)
or_rom mem npages none = none
or_rom mem npages (some (some mp)) = some (some mp)
or_rom mem npages (some none) = mpsearch1 mem npages 0xF0000 0x10000

unfoldable pub mpsearch : Memory → ℕ → Option (Option ℕ)
mpsearch mem npages =
    let segment = read16 mem 0x40E in
    let base = read16 mem 0x413 * 1024 in
    if not (is_kaddr npages 0x400)
    then none
    else or_rom mem npages (
        if not (segment == 0)
        then mpsearch1 mem npages (segment * 16) 1024
        else mpsearch1 mem npages ((base + word - 1024) % word) 1024)

-- The checks of `mpconfig` on the table.
abbrev pub is_config : Memory → ℕ → Bool
is_config mem conf =
    let length = read16 mem (conf + 4) in
    let version = mem (conf + 6) in
    is_signed mem conf (b'P' ∷ b'C' ∷ b'M' ∷ b'P' ∷ [])
    && sum mem conf length == 0
    && (version == 1 || version == 4)
    && (sum mem (conf + length) (read16 mem (conf + 40)) + mem (conf + 42)) % 256 == 0

unfoldable pub config_of : Memory → ℕ → Option (Option ℕ) → Option (Option ℕ)
config_of mem npages none = none
config_of mem npages (some none) = some none
config_of mem npages (some (some mp)) =
    let conf = read32 mem (mp + 4) in
    if conf == 0 || not (mem (mp + 11) == 0)
    then some none
    else if not (is_kaddr npages conf)
    then none
    else if is_config mem conf
    then some (some conf)
    else some none

abbrev pub mpconfig : Memory → ℕ → Option (Option ℕ)
mpconfig mem npages = config_of mem npages (mpsearch mem npages)

-- The variables that `mp_init` sets; `bootcpu` is an index.
pub record Cpus : Type 0 where
  pub cpu_ids : ℕ → ℕ
  pub started : ℕ → Bool
  pub bootcpu : ℕ
  pub ismp : Bool
  pub ncpu : ℕ
  pub lapicaddr : ℕ

abbrev pub no_cpus : Cpus
no_cpus = record {
  cpu_ids = λ i. 0;
  started = λ i. false;
  bootcpu = 0;
  ismp = false;
  ncpu = 0;
  lapicaddr = 0;
}

-- The entry of a processor at `p`.
unfoldable pub add_cpu : Memory → ℕ → Cpus → Cpus
add_cpu mem p c =
    let boot = if mem (p + 3) / 2 % 2 == 1 then c.ncpu else c.bootcpu in
    if ltb c.ncpu ncpus
    then record c { cpu_ids = update c.cpu_ids c.ncpu c.ncpu; bootcpu = boot; ncpu = c.ncpu + 1 }
    else record c { bootcpu = boot }

-- The loop over the entries.
unfoldable pub read_entries : Memory → ℕ → ℕ → Cpus → Cpus
read_entries mem p zero c = c
read_entries mem p (suc n) c = elim (mem p == 0) [
  | true ↦ read_entries mem (p + 20) n (add_cpu mem p c)
  | false ↦ elim (leb (mem p) 4) [
    | true ↦ read_entries mem (p + 8) n c
    | false ↦ record c { ismp = false }
  ]
]

unfoldable pub start_boot : Cpus → Cpus
start_boot c =
    let c' = record c { started = update c.started c.bootcpu true } in
    if c.ismp then c' else record c' { ncpu = 1; lapicaddr = 0 }

unfoldable pub init_from : Memory → Option (Option ℕ) → Option Cpus
init_from mem none = none
init_from mem (some none) = some no_cpus
init_from mem (some (some conf)) = some (
    start_boot (
      read_entries mem (conf + 44) (read16 mem (conf + 34))
        (record no_cpus { ismp = true; lapicaddr = read32 mem (conf + 36) })))

abbrev pub mp_init : Memory → ℕ → Option Cpus
mp_init mem npages = init_from mem (mpconfig mem npages)
