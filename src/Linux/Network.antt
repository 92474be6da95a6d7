-- ===== src/Linux/Network.antt =====
-- src/shared_queue.rs and `UhyveNetwork` of src/linux/uhyve.rs: the two rings of packets that the
-- guest and the threads of the network share, and one round of each thread's loop. `none` is a
-- panic. The tap device is not this program's: what it receives is an argument.
pub mod Ring
pub mod Fifo
mod Tests
use uhyve.Prelude.{
  ℕ, ◌+◌, ◌%◌, ltb, leb, if◌then◌else◌, Bool, true, false, Option, none, some, ◌>>=◌, List, [], ◌∷◌,
  ◌++◌, map, length, get_elem?, set, take, drop, add64, sub64,
}
use uhyve.Consts.{uhyve_net_mtu, uhyve_queue_size}

abbrev pub Packet : Type 0
Packet = List ℕ

abbrev pub buffer_size : ℕ
buffer_size = uhyve_net_mtu + 34

pub record QueueInner : Type 0 where
  pub len : ℕ
  pub bytes : List ℕ

pub record SharedQueue : Type 0 where
  pub read : ℕ
  pub written : ℕ
  pub inner : List QueueInner

unfoldable pub init : SharedQueue → SharedQueue
init q = record {
  read = 0;
  written = 0;
  inner = map (λ (e : QueueInner). record e { len = 0 }) q.inner;
}

abbrev pub distance : SharedQueue → ℕ
distance q = sub64 q.written q.read

-- The writer, for one value from its channel: the packet for the tap device, if there is one.
unfoldable pub send_next : SharedQueue → Option (Option Packet × SharedQueue)
send_next q =
    if ltb 0 (distance q)
    then (do
      e ← get_elem? q.inner (q.read % uhyve_queue_size)
      (if leb e.len (length e.bytes)
          then some (some (take e.len e.bytes), record q { read = add64 q.read 1 })
          else none))
    else some (none, q)

-- The reader, once round its loop: whether it took a packet, after which it triggers the
-- interrupt. The device fills the buffer from its start.
unfoldable pub receive : Packet → SharedQueue → Option (Bool × SharedQueue)
receive p q =
    if ltb (distance q) uhyve_queue_size
    then (do
      e ← get_elem? q.inner (q.written % uhyve_queue_size)
      let filled : QueueInner = record { len = length p; bytes = p ++ drop (length p) e.bytes }
      some (
        true,
        record q {
          inner = set q.inner (q.written % uhyve_queue_size) filled;
          written = add64 q.written 1;
        },
      ))
    else some (false, q)
