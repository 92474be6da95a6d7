-- ===== src/Cli/Tests.antt =====
-- The command line: the texts of the test in src/utils.rs, and one that says everything.
use uhyve.Cli.{Host, Matches, parameters, transparent_hugepages_available}
use uhyve.Cli.Texts.{collect, contains, parse_ranges, parse}
use uhyve.Cli.Numbers.{IsNumber, value}
use uhyve.Cli.Ranges.{AreRanges, covers, no_ranges, one_more, single, span}
use uhyve.Cli.Sound.{IsGiven, count_covered, parameters-IsGiven}
use uhyve.Vm.Parameter.{Parameter}
use uhyve.Prelude.{
  List, [], arith, codes, false, length, max, none, refl, some, true, ℕ, ◌&&◌, ◌*◌, ◌∷◌, ◌≡◌,
}

parse_cpu_affinity :
    collect (parse_ranges (codes "8-10" ∷ codes "5" ∷ codes "3" ∷ codes "7-9" ∷ []))
    ≡ some (8 ∷ 9 ∷ 10 ∷ 5 ∷ 3 ∷ 7 ∷ 8 ∷ 9 ∷ [])
unfolding parse_ranges collect
parse_cpu_affinity = refl

parse_negative : parse_ranges (codes "-1-2" ∷ codes "-5" ∷ []) ≡ none ∷ none ∷ []
unfolding parse_ranges
parse_negative = refl

parse_sign : parse 16 (codes "+6677") ≡ some 6677
unfolding parse
parse_sign = refl

parse_overflow : parse 16 (codes "65536") ≡ none
unfolding parse
parse_overflow = refl

abbrev host : Host
host = record {
  byte_from_str = λ _. some (8 * 1024 * 1024);
  core_ids = some (1 ∷ 3 ∷ 4 ∷ []);
  mergeable_is_or = λ b. b;
  hugepage_is_or = λ b. b;
  verbose_is_or = λ b. b;
  hermit_gdb_port = none;
  hugepage_file = some (some (codes " always [madvise] never "));
}

madvise : transparent_hugepages_available host ≡ some true
unfolding transparent_hugepages_available
madvise = refl

abbrev matches : Matches
matches = record {
  mem = some (codes "8M");
  cpus = some (codes "1");
  cpu_affinity = some (codes "0-2" ∷ codes "7" ∷ []);
  mergeable = false;
  disable_hugepage = true;
  verbose = false;
  gdb_port = some (codes "6677");
}

abbrev ranges : List (ℕ × ℕ)
ranges = (0, 2) ∷ (7, 7) ∷ []

one : IsNumber 32 (codes "1") 1
unfolding value
one = record { digits = refl; nonempty = omega arith; valued = refl; fits = omega arith }

port : IsNumber 16 (codes "6677") 6677
unfolding value
port = record { digits = refl; nonempty = omega arith; valued = refl; fits = omega arith }

digits : IsNumber 64 (codes "0") 0 × IsNumber 64 (codes "2") 2 × IsNumber 64 (codes "7") 7
unfolding value
digits = (
  record { digits = refl; nonempty = omega arith; valued = refl; fits = omega arith },
  record { digits = refl; nonempty = omega arith; valued = refl; fits = omega arith },
  record { digits = refl; nonempty = omega arith; valued = refl; fits = omega arith },
)

listed : AreRanges (codes "0-2" ∷ codes "7" ∷ []) ranges
listed =
    let (zero_text, two_text, seven_text) = digits in
    one_more (span zero_text two_text) (one_more (single seven_text) no_ranges)

given : IsGiven host matches (8 * 1024 * 1024) 1 6677 ranges (1 ∷ 3 ∷ 4 ∷ [])
unfolding count_covered covers
given = record {
  mem_text = codes "8M";
  cpus_text = codes "1";
  port_text = codes "6677";
  texts = codes "0-2" ∷ codes "7" ∷ [];
  mem_given = refl;
  cpus_given = refl;
  port_given = refl;
  affinity_given = refl;
  mem_bytes = refl;
  mem_fits = omega arith;
  cpus_number = one;
  port_number = port;
  affinity_ranges = listed;
  cores_known = refl;
  cores_enough = refl;
}

parameters-IsGiven_example :
    (p : Parameter) × (ids : List ℕ) × (parameters host matches ≡ some (p, some ids))
    × (p.mem_size ≡ max (8 * 1024 * 1024) (16 * 1024 * 1024))
    × (p.num_cpus ≡ 1)
    × (p.gdbport ≡ some 6677)
    × (length ids ≡ 1)
    × ((k : ℕ) → contains ids k ≡ (contains (1 ∷ 3 ∷ 4 ∷ []) k && covers ranges k))
parameters-IsGiven_example =
    parameters-IsGiven host matches (8 * 1024 * 1024) 1 6677 ranges (1 ∷ 3 ∷ 4 ∷ []) given
