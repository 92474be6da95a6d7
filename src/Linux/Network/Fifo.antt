-- ===== src/Linux/Network/Fifo.antt =====
-- The two rings of `UhyveNetwork` under any interleaving of the threads and of the guest. The guest's
-- ends are not in this repository; they are taken to keep the protocol of the rings.
use native.Mathlib.Decide.{dec_lt}
use uhyve.Prelude.{
  suc, ◌≢◌, ◌≤◌, ◌≡◌, refl, sym, ap, ◌∙◌, arith, true, false, none, some, List, [], ◌∷◌, ◌++◌,
  length, map,
}
use mathlib.Core.List.{append_assoc}
use uhyve.Linux.Network.{
  Packet, QueueInner, SharedQueue, buffer_size, distance, init, send_next, receive,
}
use uhyve.Linux.Network.Ring.{
  IsRing, AllFit, contents, receive-contents, receive-full, send_next-contents, send_next-empty,
  receive-some, send_next-some,
}

-- A ring, with what has gone in and what has come out since the start.
pub record Traffic : Type 0 where
  pub ring : SharedQueue
  pub put_in : List Packet
  pub taken_out : List Packet

-- The two rings: the guest puts packets into the first and the thread `writer` takes them out; the
-- thread `reader` puts packets into the second and the guest takes them out.
pub record Rings : Type 0 where
  pub tx : Traffic
  pub rx : Traffic

-- What the guest's driver does to a ring, by the protocol that the two ends share: it puts a packet
-- behind those in the ring, or takes the first one.
pub record GuestPuts (p : Packet) (q q' : SharedQueue) : Type 0 where
  pub ring : IsRing q'
  pub order : contents q' ≡ contents q ++ p ∷ []

pub record GuestTakes (p : Packet) (q q' : SharedQueue) : Type 0 where
  pub ring : IsRing q'
  pub order : contents q ≡ p ∷ contents q'

abbrev put : Traffic → Packet → SharedQueue → Traffic
put t p q = record t { ring = q; put_in = t.put_in ++ p ∷ [] }

abbrev take_out : Traffic → Packet → SharedQueue → Traffic
take_out t p q = record t { ring = q; taken_out = t.taken_out ++ p ∷ [] }

-- One turn of a thread of the host or of the guest.
pub data Step (n : Rings) : Rings → Type 0 where
  writer_sends :
      (p : Packet) (q : SharedQueue)
      → send_next n.tx.ring ≡ some (some p, q)
      → Step n (record n { tx = take_out n.tx p q })
  writer_idles :
      (q : SharedQueue)
      → send_next n.tx.ring ≡ some (none, q)
      → Step n (record n { tx = record n.tx { ring = q } })
  reader_receives :
      (p : Packet) (q : SharedQueue)
      → length p ≤ buffer_size
      → receive p n.rx.ring ≡ some (true, q)
      → Step n (record n { rx = put n.rx p q })
  reader_spins :
      (p : Packet) (q : SharedQueue)
      → length p ≤ buffer_size
      → receive p n.rx.ring ≡ some (false, q)
      → Step n (record n { rx = record n.rx { ring = q } })
  guest_puts :
      (p : Packet) (q : SharedQueue)
      → GuestPuts p n.tx.ring q
      → Step n (record n { tx = put n.tx p q })
  guest_takes :
      (p : Packet) (q : SharedQueue)
      → GuestTakes p n.rx.ring q
      → Step n (record n { rx = take_out n.rx p q })

pub data Reach (s : Rings) : Rings → Type 0 where
  here : Reach s s
  next : {t u : Rings} → Reach s t → Step t u → Reach s u

pub record IsFifo (t : Traffic) : Type 0 where
  pub ring : IsRing t.ring
  pub order : t.put_in ≡ t.taken_out ++ contents t.ring

-- Both rings are queues.
pub record AreFifo (n : Rings) : Type 0 where
  pub tx : IsFifo n.tx
  pub rx : IsFifo n.rx

put-IsFifo :
    (t : Traffic) (p : Packet) (q : SharedQueue)
    → IsRing q
    → contents q ≡ contents t.ring ++ p ∷ []
    → IsFifo t
    → IsFifo (put t p q)
put-IsFifo t p q ring more v = record {
  ring = ring;
  order = rw (more, v.order) (append_assoc t.taken_out (contents t.ring) (p ∷ []));
}

take_out-IsFifo :
    (t : Traffic) (p : Packet) (q : SharedQueue)
    → IsRing q
    → contents t.ring ≡ p ∷ contents q
    → IsFifo t
    → IsFifo (take_out t p q)
take_out-IsFifo t p q ring less v = record {
  ring = ring;
  order = rw (v.order, less) (sym (append_assoc t.taken_out (p ∷ []) (contents q)));
}

Step-AreFifo : {n o : Rings} → Step n o → AreFifo n → AreFifo o
Step-AreFifo {n} (writer_sends p q got) v =
    let (ring, less) = send_next-some n.tx.ring v.tx.ring got in
    record { tx = take_out-IsFifo n.tx p q ring less v.tx; rx = v.rx }
Step-AreFifo {n} (writer_idles q got) v =
    let (ring, same) = send_next-some n.tx.ring v.tx.ring got in
    record { tx = record { ring = ring; order = rw (v.tx.order, same) refl }; rx = v.rx }
Step-AreFifo {n} (reader_receives p q small got) v =
    let (ring, more) = receive-some p n.rx.ring v.rx.ring small got in
    record { tx = v.tx; rx = put-IsFifo n.rx p q ring more v.rx }
Step-AreFifo {n} (reader_spins p q small got) v =
    let (ring, same) = receive-some p n.rx.ring v.rx.ring small got in
    record { tx = v.tx; rx = record { ring = ring; order = rw same v.rx.order } }
Step-AreFifo {n} (guest_puts p q done) v = record {
  tx = put-IsFifo n.tx p q done.ring done.order v.tx;
  rx = v.rx;
}
Step-AreFifo {n} (guest_takes p q done) v = record {
  tx = v.tx;
  rx = take_out-IsFifo n.rx p q done.ring done.order v.rx;
}

-- From any two rings that are queues, whatever the order in which the two threads of the host and a
-- guest that keeps the rings' protocol take their turns, a turn being a whole round of a loop, the
-- packets come out of each ring in the order in which they went in, none lost and none twice: what went
-- in is what came out and then what the ring holds, which is at most eight packets. The packets from the
-- tap device are taken to fit a buffer.
pub Reach-AreFifo : {s t : Rings} → AreFifo s → Reach s t → AreFifo t
Reach-AreFifo v here = v
Reach-AreFifo v (next r st) = Step-AreFifo st (Reach-AreFifo v r)

-- On a ring, neither end ever panics, if the packet that comes in fits a buffer.
IsRing-no_panic :
    (q : SharedQueue) (p : Packet)
    → IsRing q
    → length p ≤ buffer_size
    → (receive p q ≢ none) × (send_next q ≢ none)
IsRing-no_panic q p v small = (
  elim (dec_lt (distance q) 8) [
    | yes room ↦ let (q', returns, _, _) = receive-contents p q v small room in cc
    | no full ↦ let returns = receive-full p q (omega arith) in cc
  ],
  elim (dec_lt 0 (distance q)) [
    | yes left ↦ let (t, q', returns, _, _) = send_next-contents q v left in cc
    | no empty ↦ let returns = send_next-empty q (omega arith) in cc
  ],
)

AllFit-init :
    (es : List QueueInner) → AllFit es → AllFit (map (λ (e : QueueInner). record e { len = 0 }) es)
AllFit-init [] h = tt
AllFit-init (e ∷ es) h = ((omega arith, h.0.1), AllFit-init es h.1)

length-init :
    (es : List QueueInner) → length (map (λ (e : QueueInner). record e { len = 0 }) es) ≡ length es
length-init [] = refl
length-init (e ∷ es) = ap suc (length-init es)

-- `init` makes an empty ring of any eight buffers of the full size.
pub init-IsFifo :
    (q : SharedQueue)
    → length q.inner ≡ 8
    → AllFit q.inner
    → IsFifo (record { ring = init q; put_in = []; taken_out = [] })
unfolding init
init-IsFifo q size fit = record {
  ring = record {
    slots = length-init q.inner ∙ size;
    fit = AllFit-init q.inner fit;
    read_lt = omega arith;
    written_lt = omega arith;
    bounded = omega arith;
  };
  order = refl;
}
