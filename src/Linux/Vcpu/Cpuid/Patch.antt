-- ===== src/Linux/Vcpu/Cpuid/Patch.antt =====
-- What the guest reads of the table that `setup_cpuid` hands to KVM.
use uhyve.Prelude.{
  Bool-cases, List, Option, [], false, if◌then◌else◌, inl, inr, get_elem?, length, sym, zero, suc,
  ◌≢◌, ◌⊎◌, none, some, true, ℕ, ◌==◌, ◌∷◌, ◌≡◌, arith, refl, ◌>>=◌, ◌∙◌,
}
use uhyve.Linux.Vcpu.Cpuid.{
  update_entry, CpuidEntry, first_words, put_features, put_words, second_words, setup_cpuid,
}

-- The entry that a leaf is answered from.
abbrev pub find_entry : (function : ℕ) → List CpuidEntry → Option CpuidEntry
find_entry function [] = none
find_entry function (r ∷ rs) = elim (r.function == function) [
  | true ↦ some r
  | false ↦ find_entry function rs
]

-- `position(|&r| r.function == function)`
abbrev pub position : (function : ℕ) → List CpuidEntry → Option ℕ
position function [] = none
position function (r ∷ rs) = elim (r.function == function) [
  | true ↦ some 0
  | false ↦ position function rs >>= λ n. some (suc n)
]

pub record IsUpdated (function : ℕ) (r : CpuidEntry) (es es' : List CpuidEntry) : Type 0 where
  pub entries : (g : ℕ) → find_entry g es' ≡ (if g == function then some r else find_entry g es)
  pub size : length es' ≡ length es
  pub positions : (g : ℕ) → position g es' ≡ position g es
  pub others : (n : ℕ) → position function es ≢ some n → get_elem? es' n ≡ get_elem? es n

this_one :
    (e : CpuidEntry) (es : List CpuidEntry) (function : ℕ) {r : CpuidEntry}
    → (e.function == function) ≡ true
    → find_entry function (e ∷ es) ≡ some r
    → e ≡ r
this_one e es function this h = cc (rw (find_entry, this) at h)

at_head :
    (function : ℕ) (e' e : CpuidEntry) (es : List CpuidEntry) (g : ℕ)
    → e'.function ≡ e.function
    → (e.function == function) ≡ true
    → find_entry g (e' ∷ es) ≡ (if g == function then some e' else find_entry g (e ∷ es))
at_head function e' e es g keeps this = ground arith

position-this :
    (g : ℕ) (e' e : CpuidEntry) (es es' : List CpuidEntry)
    → e'.function ≡ e.function
    → position g es' ≡ position g es
    → position g (e' ∷ es') ≡ position g (e ∷ es)
position-this g e' e es es' same rest = ground arith

others-this :
    (g : ℕ) (e' e : CpuidEntry) (es : List CpuidEntry) (n : ℕ)
    → (e.function == g) ≡ true
    → position g (e ∷ es) ≢ some n
    → get_elem? (e' ∷ es) n ≡ get_elem? (e ∷ es) n
others-this g e' e es zero this h = absurd (h (rw (position, this) refl))
others-this g e' e es (suc n) this h = refl

others-later :
    (g : ℕ) (e : CpuidEntry) (es es' : List CpuidEntry) (n : ℕ)
    → (e.function == g) ≡ false
    → ((k : ℕ) → position g es ≢ some k → get_elem? es' k ≡ get_elem? es k)
    → position g (e ∷ es) ≢ some n
    → get_elem? (e ∷ es') n ≡ get_elem? (e ∷ es) n
others-later g e es es' zero other rest h = refl
others-later g e es es' (suc n) other rest h = rest n (λ at. h (rw (position, other, at) refl))

update_entry-IsUpdated :
    (function : ℕ) (f : CpuidEntry → CpuidEntry) (es : List CpuidEntry) (r : CpuidEntry)
    → ((e : CpuidEntry) → (f e).function ≡ e.function)
    → find_entry function es ≡ some r
    → (es' : List CpuidEntry) × (update_entry function f es ≡ some es')
      × IsUpdated function (f r) es es'
unfolding update_entry
update_entry-IsUpdated function f [] r keeps h = cc
update_entry-IsUpdated function f (e ∷ es) r keeps h = elim (Bool-cases (e.function == function)) [
  | inl this ↦
      let found : e ≡ r = this_one e es function this h in
      (
        f e ∷ es,
        rw (update_entry, this) refl,
        record {
          entries = λ g. rw (← found) (at_head function (f e) e es g (keeps e) this);
          size = refl;
          positions = λ g. position-this g (f e) e es es (keeps e) refl;
          others = λ n h. others-this function (f e) e es n this h;
        },
      )
  | inr other ↦
      let (es', done, is) =
        update_entry-IsUpdated function f es r keeps (rw (find_entry, other) at h) in
      (
        e ∷ es',
        rw (update_entry, other, done) refl,
        record {
          entries = λ g. ground (arith, is.entries g);
          size = omega (arith, is.size);
          positions = λ g. position-this g e e es es' refl (is.positions g);
          others = λ n h. others-later function e es es' n other is.others h;
        },
      )
]

-- What becomes of the entry of each leaf.
abbrev pub patched : (g : ℕ) → CpuidEntry → CpuidEntry
patched g r =
    if g == 0x8000_0002
    then put_words first_words r
    else if g == 0x8000_0003
    then put_words second_words r
    else if g == 0x8000_0004
    then record r { eax = 0; ebx = 0; ecx = 0; edx = 0 }
    else if g == 1
    then put_features r
    else if g == 0x0a
    then record r { eax = 0 }
    else r

-- The table has an entry for each leaf that the source changes.
pub record HasLeaves (es : List CpuidEntry) : Type 0 where
  pub brand2 : CpuidEntry
  pub has_brand2 : find_entry 0x8000_0002 es ≡ some brand2
  pub brand3 : CpuidEntry
  pub has_brand3 : find_entry 0x8000_0003 es ≡ some brand3
  pub brand4 : CpuidEntry
  pub has_brand4 : find_entry 0x8000_0004 es ≡ some brand4
  pub features : CpuidEntry
  pub has_features : find_entry 1 es ≡ some features
  pub monitor : CpuidEntry
  pub has_monitor : find_entry 0x0a es ≡ some monitor

-- The places of the entries that the source changes: for each of the five leaves, the first.
abbrev pub IsPatchedPlace : List CpuidEntry → ℕ → Type 0
IsPatchedPlace es n =
    (position 0x8000_0002 es ≡ some n)
    ⊎ (position 0x8000_0003 es ≡ some n)
    ⊎ (position 0x8000_0004 es ≡ some n)
    ⊎ (position 1 es ≡ some n)
    ⊎ (position 0x0a es ≡ some n)

pub record IsPatched (es es' : List CpuidEntry) : Type 0 where
  pub size : length es' ≡ length es
  pub entries : (g : ℕ) → find_entry g es' ≡ (find_entry g es >>= λ r. some (patched g r))
  pub others : (n : ℕ) → ¬ IsPatchedPlace es n → get_elem? es' n ≡ get_elem? es n

-- With an entry for each of the five leaves, `setup_cpuid` does not panic and patches those.
pub setup_cpuid-IsPatched :
    (es : List CpuidEntry)
    → HasLeaves es
    → (es' : List CpuidEntry) × (setup_cpuid es ≡ some es') × IsPatched es es'
unfolding setup_cpuid
setup_cpuid-IsPatched es has =
    let (e1, d1, i1) =
      update_entry-IsUpdated 0x8000_0002 (put_words first_words) es has.brand2 (λ e. refl)
        has.has_brand2 in
    let (e2, d2, i2) =
      update_entry-IsUpdated 0x8000_0003 (put_words second_words) e1 has.brand3 (λ e. refl)
        (i1.entries 0x8000_0003 ∙ has.has_brand3) in
    let (e3, d3, i3) =
      update_entry-IsUpdated 0x8000_0004 (λ r. record r { eax = 0; ebx = 0; ecx = 0; edx = 0 }) e2
        has.brand4 (λ e. refl)
        (i2.entries 0x8000_0004 ∙ (i1.entries 0x8000_0004 ∙ has.has_brand4)) in
    let (e4, d4, i4) =
      update_entry-IsUpdated 1 put_features e3 has.features (λ e. refl)
        (i3.entries 1 ∙ (i2.entries 1 ∙ (i1.entries 1 ∙ has.has_features))) in
    let (e5, d5, i5) =
      update_entry-IsUpdated 0x0a (λ r. record r { eax = 0 }) e4 has.monitor (λ e. refl)
        (i4.entries 0x0a
          ∙ (i3.entries 0x0a ∙ (i2.entries 0x0a ∙ (i1.entries 0x0a ∙ has.has_monitor)))) in
    (
      e5,
      rw (d1, d2, d3, d4, d5) refl,
      record {
        size = omega (arith, i1.size, i2.size, i3.size, i4.size, i5.size);
        entries = λ g.
            ground (arith, i1.entries g, i2.entries g, i3.entries g, i4.entries g, i5.entries g);
        others = λ n h.
            i5.others n (λ p. h (
              inr (
                inr (
                  inr (
                    inr (
                      sym (
                        i4.positions 0x0a
                        ∙ (i3.positions 0x0a ∙ (i2.positions 0x0a ∙ i1.positions 0x0a)))
                      ∙ p))))))
            ∙ (i4.others n (λ p. h (
                  inr (
                    inr
                      (inr (inl (sym (i3.positions 1 ∙ (i2.positions 1 ∙ i1.positions 1)) ∙ p))))))
                ∙ (i3.others n (λ p. h (
                      inr (
                        inr (inl (sym (i2.positions 0x8000_0004 ∙ i1.positions 0x8000_0004) ∙ p)))))
                    ∙ (i2.others n (λ p. h (inr (inl (sym (i1.positions 0x8000_0003) ∙ p))))
                        ∙ i1.others n (λ p. h (inl p)))));
      },
    )
