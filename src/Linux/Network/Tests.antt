-- ===== src/Linux/Network/Tests.antt =====
-- The shared rings of linux/uhyve.rs on concrete packets.
use uhyve.Prelude.{[], ap, arith, length, refl, replicate, suc, zero, ℕ, ◌∷◌, ◌≡◌, ◌≤◌, some, true}
use uhyve.Linux.Network.{init, QueueInner, SharedQueue, buffer_size, receive, send_next}
use uhyve.Linux.Network.Fifo.{
  AreFifo, GuestPuts, GuestTakes, IsFifo, Traffic, init-IsFifo, Reach-AreFifo, here, next,
  guest_puts, guest_takes, reader_receives, writer_sends,
}
use uhyve.Linux.Network.Ring.{receive-some, send_next-some}

abbrev buffer : QueueInner
buffer = record { len = 5; bytes = replicate buffer_size 0 }

abbrev uninitialised : SharedQueue
uninitialised = record { read = 7; written = 3; inner = replicate 8 buffer }

length-replicate : {A : Type 0} (n : ℕ) (x : A) → length (replicate n x) ≡ n
length-replicate zero x = refl
length-replicate (suc n) x = ap suc (length-replicate n x)

abbrev fits : (buffer.len ≤ buffer_size) × (length buffer.bytes ≡ buffer_size)
fits = (omega arith, length-replicate {A = ℕ} buffer_size 0)

abbrev start : Traffic
start = record { ring = init uninitialised; put_in = []; taken_out = [] }

start-IsFifo : IsFifo start
start-IsFifo =
    init-IsFifo uninitialised refl
      (fits, (fits, (fits, (fits, (fits, (fits, (fits, (fits, tt))))))))

-- A packet goes in and comes out again.
abbrev holding : SharedQueue
holding = record {
  read = 0;
  written = 1;
  inner =
      record { len = 2; bytes = 1 ∷ 2 ∷ replicate 1532 0 }
      ∷ replicate 7 (record buffer { len = 0 });
}

abbrev emptied : SharedQueue
emptied = record holding { read = 1 }

received : receive (1 ∷ 2 ∷ []) (init uninitialised) ≡ some (true, holding)
unfolding receive init
received = refl

sent : send_next holding ≡ some (some (1 ∷ 2 ∷ []), emptied)
unfolding send_next
sent = refl

-- The driver puts a packet into the first ring as `receive` would, and takes one out as `send_next`.
puts : GuestPuts (1 ∷ 2 ∷ []) (init uninitialised) holding
puts =
    let (ring, order) =
      receive-some (1 ∷ 2 ∷ []) (init uninitialised) start-IsFifo.ring (omega arith) received in
    record { ring = ring; order = order }

takes : GuestTakes (1 ∷ 2 ∷ []) holding emptied
takes =
    let (ring, order) = send_next-some holding puts.ring sent in
    record { ring = ring; order = order }

abbrev over : Traffic
over = record { ring = emptied; put_in = (1 ∷ 2 ∷ []) ∷ []; taken_out = (1 ∷ 2 ∷ []) ∷ [] }

Reach-AreFifo_example : AreFifo (record { tx = over; rx = over })
Reach-AreFifo_example =
    Reach-AreFifo (record { tx = start-IsFifo; rx = start-IsFifo })
      (next
        (next
          (next (next here (guest_puts (1 ∷ 2 ∷ []) holding puts))
            (reader_receives (1 ∷ 2 ∷ []) holding (omega arith) received))
          (writer_sends (1 ∷ 2 ∷ []) emptied sent))
        (guest_takes (1 ∷ 2 ∷ []) emptied takes))
