-- ===== src/Linux/Network/Ring.antt =====
-- The ring as a queue of at most eight packets.
use native.Mathlib.Decide.{dec_lt}
use uhyve.Prelude.{
  ℕ, zero, suc, ◌+◌, ◌%◌, ◌^◌, ◌≤◌, ◌<◌, ◌≡◌, ◌≢◌, refl, ap, ap₂, subst, ◌∙◌, arith, Bool, true,
  false, Option, none, some, List, [], ◌∷◌, ◌++◌, length, get_or, set, take, drop, add64,
  if◌then◌else◌, length-set, length-append, length-drop, take_append, get_or-set_self,
  get_or-set_ne, get_elem?-eq-get_or,
}
use uhyve.Linux.Network.{Packet, QueueInner, SharedQueue, buffer_size, distance, send_next, receive}

abbrev pub blank : QueueInner
blank = record { len = 0; bytes = [] }

-- The packet in a slot.
abbrev pub packet : List QueueInner → ℕ → Packet
packet inner i = let e = get_or inner (i % 8) blank in take e.len e.bytes

-- The `n` packets from position `i` on.
abbrev pub window : List QueueInner → ℕ → ℕ → List Packet
window inner i zero = []
window inner i (suc n) = packet inner i ∷ window inner (add64 i 1) n

abbrev pub contents : SharedQueue → List Packet
contents q = window q.inner q.read (distance q)

abbrev pub AllFit : List QueueInner → Type 0
AllFit [] = Unit {0}
AllFit (e ∷ es) = ((e.len ≤ buffer_size) × (length e.bytes ≡ buffer_size)) × AllFit es

-- Eight buffers of the full size, lengths that fit, and at most eight packets between the
-- positions.
pub record IsRing (q : SharedQueue) : Type 0 where
  pub slots : length q.inner ≡ 8
  pub fit : AllFit q.inner
  pub read_lt : q.read < 2 ^ 64
  pub written_lt : q.written < 2 ^ 64
  pub bounded : distance q ≤ 8

AllFit-get :
    (es : List QueueInner) (i : ℕ)
    → AllFit es
    → i < length es
    → let e = get_or es i blank in (e.len ≤ buffer_size) × (length e.bytes ≡ buffer_size)
AllFit-get [] i h l = elim l [ ]
AllFit-get (e ∷ es) zero h l = h.0
AllFit-get (e ∷ es) (suc i) h l = AllFit-get es i h.1 (omega arith)

AllFit-set :
    (es : List QueueInner) (i : ℕ) (e : QueueInner)
    → AllFit es
    → e.len ≤ buffer_size
    → length e.bytes ≡ buffer_size
    → AllFit (set es i e)
AllFit-set [] i e h p q = tt
AllFit-set (d ∷ es) zero e h p q = ((p, q), h.1)
AllFit-set (d ∷ es) (suc i) e h p q = (h.0, AllFit-set es i e h.1 p q)

-- Writing the slot just past a window of less than eight extends it by that packet.
window-set :
    (inner : List QueueInner) (e : QueueInner) (n i w : ℕ)
    → length inner ≡ 8
    → n < 8
    → i < 2 ^ 64
    → w ≡ (i + n) % 2 ^ 64
    → window (set inner (w % 8) e) i (suc n) ≡ window inner i n ++ take e.len e.bytes ∷ []
window-set inner e zero i w size small hi hw =
    let at : w ≡ i = omega arith in rw (at, get_or-set_self inner (i % 8) e blank (omega arith))
window-set inner e (suc n) i w size small hi hw =
    let apart : w % 8 ≢ i % 8 = omega arith in
    ap₂ ◌∷◌ (rw (get_or-set_ne inner (w % 8) (i % 8) e blank apart))
      (window-set inner e n (add64 i 1) w size (omega arith) (omega arith) (omega arith))

-- A ring with room takes a packet that fits a buffer: it stands behind those that are there.
pub receive-contents :
    (p : Packet) (q : SharedQueue)
    → IsRing q
    → length p ≤ buffer_size
    → distance q < 8
    → (q' : SharedQueue) × (receive p q ≡ some (true, q'))
      × IsRing q'
      × (contents q' ≡ contents q ++ p ∷ [])
unfolding receive
receive-contents p q v small room =
    let i = q.written % 8 in
    let old = get_or q.inner i blank in
    let fit = AllFit-get q.inner i v.fit (omega (arith, v.slots)) in
    let filled : QueueInner = record { len = length p; bytes = p ++ drop (length p) old.bytes } in
    let q' = record q { inner = set q.inner i filled; written = add64 q.written 1 } in
    let more : distance q' ≡ suc (distance q) = omega (arith, v.read_lt, v.written_lt) in
    (
      q',
      ground (arith, get_elem?-eq-get_or q.inner i blank (omega (arith, v.slots))),
      record {
        slots = omega (arith, length-set q.inner i filled, v.slots);
        fit = AllFit-set q.inner i filled v.fit small (
            omega (
              arith,
              length-append p (drop (length p) old.bytes),
              length-drop (length p) old.bytes,
              fit,
            ));
        read_lt = v.read_lt;
        written_lt = omega arith;
        bounded = omega (arith, more);
      },
      ap (window (set q.inner i filled) q.read) more
          ∙ window-set q.inner filled (distance q) q.read q.written v.slots room v.read_lt
              (omega (arith, v.read_lt, v.written_lt))
          ∙ ap (λ (t : Packet). contents q ++ t ∷ []) (take_append p (drop (length p) old.bytes)),
    )

-- A full ring takes none, and stays as it is.
pub receive-full : (p : Packet) (q : SharedQueue) → 8 ≤ distance q → receive p q ≡ some (false, q)
unfolding receive
receive-full p q full = ground arith

-- From a ring with packets the oldest is sent, and the others stay in order.
pub send_next-contents :
    (q : SharedQueue)
    → IsRing q
    → 0 < distance q
    → (p : Packet) × (q' : SharedQueue) × (send_next q ≡ some (some p, q'))
      × IsRing q'
      × (contents q ≡ p ∷ contents q')
unfolding send_next
send_next-contents q v some_left =
    let q' = record q { read = add64 q.read 1 } in
    let i = q.read % 8 in
    let in_range : i < length q.inner = omega (arith, v.slots) in
    let fit = AllFit-get q.inner i v.fit in_range in
    let less : distance q ≡ suc (distance q') = omega (arith, v.read_lt, v.written_lt) in
    (
      packet q.inner q.read,
      q',
      ground (arith, get_elem?-eq-get_or q.inner i blank in_range, fit),
      record {
        slots = v.slots;
        fit = v.fit;
        read_lt = omega arith;
        written_lt = v.written_lt;
        bounded = omega (arith, less, v.bounded);
      },
      ap (window q.inner q.read) less,
    )

-- From an empty ring nothing is sent.
pub send_next-empty : (q : SharedQueue) → distance q ≡ 0 → send_next q ≡ some (none, q)
unfolding send_next
send_next-empty q e = ground arith

-- The outcomes of both ends, read backwards.
pub receive-some :
    (p : Packet) (q : SharedQueue) {took : Bool} {q' : SharedQueue}
    → IsRing q
    → length p ≤ buffer_size
    → receive p q ≡ some (took, q')
    → IsRing q' × (contents q' ≡ (if took then contents q ++ p ∷ [] else contents q))
receive-some p q {took} {q'} v small got = elim (dec_lt (distance q) 8) [
  | yes room ↦
      let (q0, returns, ring, order) = receive-contents p q v small room in
      let same : q0 ≡ q' = cc in
      let took_it : true ≡ took = cc in rw (← same, ← took_it) (ring, order)
  | no full ↦
      let returns = receive-full p q (omega arith) in
      let same : q ≡ q' = cc in let refused : false ≡ took = cc in rw (← same, ← refused) (v, refl)
]

pub send_next-some :
    (q : SharedQueue) {sent : Option Packet} {q' : SharedQueue}
    → IsRing q
    → send_next q ≡ some (sent, q')
    → IsRing q' × (contents q ≡ elim sent [ none ↦ contents q' | some p ↦ p ∷ contents q' ])
send_next-some q {sent} {q'} v got = elim (dec_lt 0 (distance q)) [
  | yes left ↦
      let (p, q0, returns, ring, order) = send_next-contents q v left in
      let same : q0 ≡ q' = cc in
      let sent_it : some p ≡ sent = cc in (subst IsRing same ring, rw (← sent_it, ← same) order)
  | no empty ↦
      let returns = send_next-empty q (omega arith) in
      let same : q ≡ q' = cc in
      let nothing : none ≡ sent = cc in (subst IsRing same v, rw (← nothing, ← same) refl)
]
