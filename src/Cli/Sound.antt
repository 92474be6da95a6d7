-- ===== src/Cli/Sound.antt =====
-- The parameters that src/bin/uhyve.rs makes of a command line which says everything.
use uhyve.Cli.Numbers.{IsNumber, parse-IsNumber}
use uhyve.Vm.Parameter.{Parameter}
use uhyve.Cli.{
  Host, Matches, keep, listed_cores, num_cpus, cpu_affinity, gdbport, mem_size, minimal_guest_size,
  parameter_of, parameters,
}
use uhyve.Cli.Texts.{contains, parse}
use uhyve.Cli.Ranges.{AreRanges, covers, parse_ranges-covers}
use uhyve.Prelude.{
  max, List, [], arith, Option, if◌then◌else◌, length, refl, some, true, ℕ, ◌&&◌, ◌+◌, ◌==◌, ◌∷◌,
  ◌≡◌, ◌∙◌, ap, ltb, sym, ◌*◌, ◌<◌, ◌^◌,
}

-- How many of the cores are in one of the ranges.
unfoldable pub count_covered : List (ℕ × ℕ) → List ℕ → ℕ
count_covered ranges [] = 0
count_covered ranges (k ∷ ks) =
    if covers ranges k then count_covered ranges ks + 1 else count_covered ranges ks

module _ (ids : List ℕ) (ranges : List (ℕ × ℕ))
    (same : (k : ℕ) → contains ids k ≡ covers ranges k) where
  length-keep : (ks : List ℕ) → length (keep ids ks) ≡ count_covered ranges ks
  unfolding count_covered
  length-keep [] = refl
  length-keep (k ∷ ks) = rw (same k) (ground (arith, length-keep ks))

  contains-keep :
      (ks : List ℕ) (k : ℕ) → contains (keep ids ks) k ≡ (contains ks k && covers ranges k)
  contains-keep [] k = refl
  contains-keep (j ∷ ks) k =
      let rest = contains-keep ks k in
      let cover : k ≡ j → covers ranges k ≡ covers ranges j = λ e. ap (covers ranges) e in
      rw (same j) (grind (arith, rest, cover))

clamped : (bytes least : ℕ) → (if ltb bytes least then least else bytes) ≡ max bytes least
clamped bytes least = ground arith

module _ (host : Host) (matches : Matches) where
  listed_cores_lem :
      {texts : List (List ℕ)} {ranges : List (ℕ × ℕ)} {ks : List ℕ}
      → AreRanges texts ranges
      → host.core_ids ≡ some ks
      → count_covered ranges ks ≡ num_cpus matches
      → (ids : List ℕ) × (listed_cores host matches texts ≡ some ids)
        × (length ids ≡ num_cpus matches)
        × ((k : ℕ) → contains ids k ≡ (contains ks k && covers ranges k))
  unfolding listed_cores
  listed_cores_lem {ranges = ranges} {ks = ks} are known enough =
      let (parsed, read, same) = parse_ranges-covers are in
      let counted : length (keep parsed ks) ≡ num_cpus matches =
        length-keep parsed ranges same ks ∙ enough in
      let same_count : (length (keep parsed ks) == num_cpus matches) ≡ true = ground arith in
      (
        keep parsed ks,
        rw (listed_cores, read, known, same_count) refl,
        counted,
        contains-keep parsed ranges same ks,
      )

  mem_size-max :
      {text : List ℕ} {bytes : ℕ}
      → matches.mem ≡ some text
      → host.byte_from_str text ≡ some bytes
      → bytes < 2 ^ 64
      → mem_size host matches ≡ some (max bytes minimal_guest_size)
  mem_size-max {bytes = bytes} given read small =
      let fits : ltb bytes (2 ^ 64) ≡ true = ground arith in
      rw (given, read, fits) (ap some (clamped bytes minimal_guest_size))

  cpu_affinity-listed :
      {texts : List (List ℕ)} {ids : List ℕ}
      → matches.cpu_affinity ≡ some texts
      → listed_cores host matches texts ≡ some ids
      → cpu_affinity host matches ≡ some (some ids)
  unfolding cpu_affinity
  cpu_affinity-listed given listed = rw (cpu_affinity, given, listed) refl

  gdbport-given :
      {text : List ℕ} {port : ℕ}
      → matches.gdb_port ≡ some text
      → parse 16 text ≡ some port
      → gdbport host matches ≡ some (some port)
  gdbport-given given read = rw (given, read) refl

  num_cpus-given :
      {text : List ℕ} {cpus : ℕ}
      → matches.cpus ≡ some text
      → parse 32 text ≡ some cpus
      → num_cpus matches ≡ cpus
  num_cpus-given given read = rw (given, read) refl

  parameters-made :
      {mem : ℕ} {affinity : Option (List ℕ)} {port : Option ℕ}
      → mem_size host matches ≡ some mem
      → cpu_affinity host matches ≡ some affinity
      → gdbport host matches ≡ some port
      → parameters host matches ≡ some (parameter_of host matches mem port, affinity)
  unfolding parameters
  parameters-made sized bound port = rw (parameters, sized, bound, port) refl

-- A command line that says everything: each of its texts, and what it stands for.
pub record IsGiven (host : Host) (matches : Matches) (bytes cpus port : ℕ) (ranges : List (ℕ × ℕ))
    (ks : List ℕ) : Type 0 where
  pub mem_text : List ℕ
  pub cpus_text : List ℕ
  pub port_text : List ℕ
  pub texts : List (List ℕ)
  pub mem_given : matches.mem ≡ some mem_text
  pub cpus_given : matches.cpus ≡ some cpus_text
  pub port_given : matches.gdb_port ≡ some port_text
  pub affinity_given : matches.cpu_affinity ≡ some texts
  pub mem_bytes : host.byte_from_str mem_text ≡ some bytes
  pub mem_fits : bytes < 2 ^ 64
  pub cpus_number : IsNumber 32 cpus_text cpus
  pub port_number : IsNumber 16 port_text port
  pub affinity_ranges : AreRanges texts ranges
  pub cores_known : host.core_ids ≡ some ks
  pub cores_enough : count_covered ranges ks ≡ cpus

-- From a command line with a size of memory, a number of CPUs, a port and as many usable cores as CPUs
-- the parameters are made without a panic: the memory that is asked for, but at least 16 MiB, the CPUs
-- and the port, and exactly the cores that the process may use and that are listed. Whether a machine
-- can be created with them is decided later: with a port, `Uhyve::new` takes one CPU only.
pub parameters-IsGiven :
    (host : Host) (matches : Matches) (bytes cpus port : ℕ) (ranges : List (ℕ × ℕ)) (ks : List ℕ)
    → IsGiven host matches bytes cpus port ranges ks
    → (p : Parameter) × (ids : List ℕ) × (parameters host matches ≡ some (p, some ids))
      × (p.mem_size ≡ max bytes (16 * 1024 * 1024))
      × (p.num_cpus ≡ cpus)
      × (p.gdbport ≡ some port)
      × (length ids ≡ cpus)
      × ((k : ℕ) → contains ids k ≡ (contains ks k && covers ranges k))
unfolding parameter_of
parameters-IsGiven host matches bytes cpus port ranges ks given =
    let counted = num_cpus-given host matches given.cpus_given (parse-IsNumber given.cpus_number) in
    let (ids, listed, enough, same) =
      listed_cores_lem host matches given.affinity_ranges given.cores_known
        (given.cores_enough ∙ sym counted) in
    let bound = cpu_affinity-listed host matches given.affinity_given listed in
    let sized = mem_size-max host matches given.mem_given given.mem_bytes given.mem_fits in
    let port_read =
      gdbport-given host matches given.port_given (parse-IsNumber given.port_number) in
    (
      parameter_of host matches (max bytes minimal_guest_size) (some port),
      ids,
      parameters-made host matches sized bound port_read,
      refl,
      counted,
      refl,
      enough ∙ counted,
      same,
    )
