-- ===== src/Cli.antt =====
-- src/utils.rs and src/bin/uhyve.rs: the command line. What the parser of arguments (package clap)
-- found is the record Matches; the packages byte_unit, core_affinity and envmnt and the file that
-- tells about huge pages are the record Host. A text is the list of its codes.
use uhyve.Vm.Parameter.{Parameter}
use uhyve.Prelude.{
  Bool, List, Option, [], codes, false, if◌then◌else◌, leb, length, ltb, map, none, some, true, ℕ,
  ◌&&◌, ◌*◌, ◌++◌, ◌+◌, ◌-◌, ◌==◌, ◌>>=◌, ◌^◌, ◌||◌, ◌∷◌, suc, zero,
}
use uhyve.Vm.Arguments.{eq_bytes}
use uhyve.Cli.Texts.{
  is_digit, parse_digits, plus, minus, parse, split_once, parse_range, count_up, range_items,
  parse_ranges, collect, contains,
}
pub mod Texts
pub mod Numbers
pub mod Ranges
pub mod Sound
mod Tests

-- What clap found.
pub record Matches : Type 0 where
  pub mem : Option (List ℕ)
  pub cpus : Option (List ℕ)
  pub cpu_affinity : Option (List (List ℕ))
  pub mergeable : Bool
  pub disable_hugepage : Bool
  pub verbose : Bool
  pub gdb_port : Option (List ℕ)

-- `byte_from_str` is `Byte::from_str` with `get_bytes`; each `is_or` is `envmnt::is_or` on its variable;
-- `hugepage_file` is `none` if there is no such file, and `some none` if it cannot be read.
pub record Host : Type 0 where
  pub byte_from_str : List ℕ → Option ℕ
  pub core_ids : Option (List ℕ)
  pub mergeable_is_or : Bool → Bool
  pub hugepage_is_or : Bool → Bool
  pub verbose_is_or : Bool → Bool
  pub hermit_gdb_port : Option (List ℕ)
  pub hugepage_file : Option (Option (List ℕ))

abbrev pub minimal_guest_size : ℕ
minimal_guest_size = 16 * 1024 * 1024

abbrev pub default_guest_size : ℕ
default_guest_size = 64 * 1024 * 1024

-- `none` is a panic, here and below.
abbrev pub mem_size : Host → Matches → Option ℕ
mem_size host matches = elim matches.mem [
  | none ↦ some default_guest_size
  | some s ↦ do
    mem ← host.byte_from_str s
    mem' ← if ltb mem (2 ^ 64) then some mem else none
    some (if ltb mem' minimal_guest_size then minimal_guest_size else mem')
]

abbrev pub unwrap_or : {A : Type 0} → Option A → A → A
unwrap_or none d = d
unwrap_or (some a) d = a

abbrev pub num_cpus : Matches → ℕ
num_cpus matches = unwrap_or (matches.cpus >>= parse 32) 1

abbrev pub keep : List ℕ → List ℕ → List ℕ
keep affinity [] = []
keep affinity (core_id ∷ core_ids) =
    if contains affinity core_id then core_id ∷ keep affinity core_ids else keep affinity core_ids

-- The cores that the process may run on, as far as they are listed: one for each virtual CPU.
unfoldable pub listed_cores : Host → Matches → List (List ℕ) → Option (List ℕ)
unfolding parse_ranges collect
listed_cores host matches affinity = do
  parsed_affinity ← collect (parse_ranges affinity)
  all_ids ← host.core_ids
  let core_ids = keep parsed_affinity all_ids
  if length core_ids == num_cpus matches then some core_ids else none

unfoldable pub cpu_affinity : Host → Matches → Option (Option (List ℕ))
unfolding listed_cores
cpu_affinity host matches = elim matches.cpu_affinity [
  | none ↦ some none
  | some affinity ↦ do ids ← listed_cores host matches affinity; some (some ids)
]

-- `none` is the error of a text that the source does not know.
abbrev pub interpret_hugepages : List ℕ → Option Bool
interpret_hugepages s =
    if eq_bytes s (codes "[always] madvise never") || eq_bytes s (codes "always [madvise] never")
    then some true
    else if eq_bytes s (codes "always madvise [never]")
    then some false
    else none

-- `str::trim`, for the blanks of ASCII
abbrev pub is_blank : ℕ → Bool
is_blank c = (c == 32) || (leb 9 c && leb c 13)

unfoldable pub trim_start : List ℕ → List ℕ
trim_start [] = []
trim_start (c ∷ cs) = let rest = trim_start cs in if is_blank c then rest else c ∷ cs

unfoldable pub trim_end : List ℕ → List ℕ
trim_end [] = []
trim_end (c ∷ cs) = elim (trim_end cs) [
  | [] ↦ if is_blank c then [] else c ∷ []
  | (d ∷ ds) ↦ c ∷ d ∷ ds
]

unfoldable pub transparent_hugepages_available : Host → Option Bool
unfolding trim_start trim_end
transparent_hugepages_available host = elim host.hugepage_file [
  | none ↦ some false
  | some none ↦ none
  | some (some s) ↦ interpret_hugepages (trim_end (trim_start s))
]

abbrev pub parse_port : Option (List ℕ) → Option (Option ℕ)
parse_port none = some none
parse_port (some p) = do port ← parse 16 p; some (some port)

abbrev pub gdbport : Host → Matches → Option (Option ℕ)
gdbport host matches = elim matches.gdb_port [
  | none ↦ parse_port host.hermit_gdb_port
  | some p ↦ parse_port (some p)
]

-- `vm::Parameter`, with the flags of the command line and of the environment
unfoldable pub parameter_of : Host → Matches → (mem_size : ℕ) → (gdbport : Option ℕ) → Parameter
unfolding parse transparent_hugepages_available
parameter_of host matches mem_size gdbport =
    let hugepage_default = unwrap_or (transparent_hugepages_available host) true in
    let hugepage = host.hugepage_is_or hugepage_default in
    record {
      mem_size = mem_size;
      num_cpus = num_cpus matches;
      verbose = if matches.verbose then true else host.verbose_is_or false;
      hugepage = if matches.disable_hugepage then false else hugepage;
      mergeable = if matches.mergeable then true else host.mergeable_is_or false;
      ip = none;
      gateway = none;
      mask = none;
      nic = none;
      gdbport = gdbport;
    }

-- What the machine is created with, and the cores that its CPUs are bound to.
unfoldable pub parameters : Host → Matches → Option (Parameter × Option (List ℕ))
unfolding parse cpu_affinity parameter_of
parameters host matches = do
  mem ← mem_size host matches
  affinity ← cpu_affinity host matches
  port ← gdbport host matches
  some (parameter_of host matches mem port, affinity)
