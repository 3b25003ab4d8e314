-- ===== src/Native/WriteQueue.antt =====
-- `NativeWriteQueue` of src/native-write-queue.ts: frames that wait for the socket to drain. An
-- entry of the array is an object that the map of requests shares: `serial` is its identity, and
-- the map gives the serial of a request's entry. What the socket does with the n-th `write`, and
-- whether a request is still pending, are parameters. `sent` and `rejected` list what the socket
-- has taken and which requests have been rejected, in order.
pub mod Arrays
pub mod Waiting
pub mod Spec
pub mod Cancelling
pub mod Writing
pub mod Taking
pub mod Flushing
pub mod Runs
use ferricstore_typescript.Common.{
  ℕ, zero, suc, ◌+◌, ◌-◌, ◌*◌, Bool, true, false, ◌&&◌, ◌||◌, Option, none, some, List, [], ◌∷◌,
  ◌++◌, ltb, leb, ◌==◌, not, if◌then◌else◌, length, drop, get_elem?,
}
use native.Mathlib.Decide.{ℕ_discrete}
use ferricstore_typescript.Common.Maps.{get, set, delete, contains}

pub record QueuedWrite : Type 0 where
  pub serial : ℕ
  pub bytes : ℕ
  pub frame : Option (List ℕ)
  pub request_id : ℕ

-- What `socket.write` does: it takes the frame, takes it and is full, or throws.
pub data SocketAnswer : Type 0 where
  accepted full failed : SocketAnswer

pub data WriteFailure : Type 0 where
  queue_full possibly_sent unsent queue_rejected : WriteFailure

pub record Queue : Type 0 where
  pub max_queued_bytes : ℕ
  pub writes : List QueuedWrite
  pub by_request : List (ℕ × ℕ)
  pub queued_bytes : ℕ
  pub head : ℕ
  pub tombstones : ℕ
  pub blocked : Bool
  pub next_serial : ℕ
  pub attempts : ℕ
  pub sent : List (List ℕ)
  pub rejected : List (ℕ × WriteFailure)

abbrev pub new_queue : ℕ → Queue
new_queue max_queued_bytes = record {
  max_queued_bytes = max_queued_bytes;
  writes = [];
  by_request = [];
  queued_bytes = 0;
  head = 0;
  tombstones = 0;
  blocked = false;
  next_serial = 0;
  attempts = 0;
  sent = [];
  rejected = [];
}

-- `queued.frame = undefined`
abbrev pub cleared : QueuedWrite → QueuedWrite
cleared q = record q { frame = none }

unfoldable pub clear_serial : ℕ → List QueuedWrite → List QueuedWrite
clear_serial k [] = []
clear_serial k (q ∷ qs) = if q.serial == k then cleared q ∷ qs else q ∷ clear_serial k qs

unfoldable pub clear_at : ℕ → List QueuedWrite → List QueuedWrite
clear_at i [] = []
clear_at zero (q ∷ qs) = cleared q ∷ qs
clear_at (suc i) (q ∷ qs) = q ∷ clear_at i qs

-- The object that a reference names.
unfoldable pub find_serial : ℕ → List QueuedWrite → Option QueuedWrite
find_serial k [] = none
find_serial k (q ∷ qs) = if q.serial == k then some q else find_serial k qs

abbrev pub keep_if : Option (List ℕ) → QueuedWrite → List QueuedWrite → List QueuedWrite
keep_if none q rest = rest
keep_if (some frame) q rest = q ∷ rest

-- The entries with a frame.
unfoldable pub keep_live : List QueuedWrite → List QueuedWrite
keep_live [] = []
keep_live (q ∷ qs) = keep_if q.frame q (keep_live qs)

unfoldable pub reject_pending : ℕ → WriteFailure → Queue → Queue
reject_pending id reason s = record s { rejected = s.rejected ++ ((id, reason) ∷ []) }

unfoldable pub compact_tombstones : Queue → Queue
compact_tombstones s =
    if length s.by_request == 0
    then record s { writes = []; head = 0; tombstones = 0 }
    else if ltb s.tombstones 1024 || ltb (s.tombstones * 2) (length s.writes - s.head)
    then s
    else record s { writes = keep_live (drop s.head s.writes); head = 0; tombstones = 0 }

abbrev pub cancel_frame : ℕ → QueuedWrite → Option (List ℕ) → Queue → Queue
cancel_frame id q none s = s
cancel_frame id q (some frame) s = compact_tombstones (record s {
  writes = clear_serial q.serial s.writes;
  by_request = delete ℕ_discrete id s.by_request;
  queued_bytes = s.queued_bytes - q.bytes;
  tombstones = s.tombstones + 1;
})

abbrev pub cancel_entry : ℕ → Option QueuedWrite → Queue → Queue
cancel_entry id none s = s
cancel_entry id (some q) s = cancel_frame id q q.frame s

abbrev pub cancel_found : ℕ → Option ℕ → Queue → Queue
cancel_found id none s = s
cancel_found id (some k) s = cancel_entry id (find_serial k s.writes) s

unfoldable pub cancel : ℕ → Queue → Queue
cancel id s = cancel_found id (get ℕ_discrete id s.by_request) s

unfoldable pub clear : Queue → Queue
clear s = record s {
  writes = [];
  by_request = [];
  queued_bytes = 0;
  head = 0;
  tombstones = 0;
  blocked = false;
}

unfoldable pub has : ℕ → Queue → Bool
has id s = contains ℕ_discrete id s.by_request

unfoldable pub reject_each : List (ℕ × ℕ) → Queue → Queue
reject_each [] s = s
reject_each ((id, k) ∷ rest) s = reject_each rest (cancel id (reject_pending id queue_rejected s))

unfoldable pub reject_queued : Queue → Queue
reject_queued s = reject_each s.by_request s

unfoldable pub written : ℕ → List ℕ → SocketAnswer → Queue → Queue
written id frame accepted s = record s { sent = s.sent ++ (frame ∷ []); attempts = s.attempts + 1 }
written id frame full s = record s {
  sent = s.sent ++ (frame ∷ []);
  attempts = s.attempts + 1;
  blocked = true;
}
written id frame failed s = reject_pending id unsent (record s { attempts = s.attempts + 1 })

-- The entry at the head has left the queue.
unfoldable pub take_head : QueuedWrite → Queue → Queue
take_head q s = record s {
  writes = clear_at s.head s.writes;
  by_request = delete ℕ_discrete q.request_id s.by_request;
  queued_bytes = s.queued_bytes - q.bytes;
  head = s.head + 1;
}

-- The callback of `socket.write`, with an error.
unfoldable pub write_failed : ℕ → Queue → Queue
write_failed id s = reject_pending id possibly_sent s

unfoldable pub trim_head : Queue → Queue
trim_head s =
    if s.head == length s.writes
    then record s { writes = []; head = 0; tombstones = 0 }
    else if leb 1024 s.head && leb (length s.writes) (s.head * 2)
    then record s { writes = drop s.head s.writes; head = 0 }
    else s

module _ (socket : ℕ → SocketAnswer) where
  unfoldable pub write_frame : ℕ → List ℕ → Queue → Queue
  write_frame id frame s = written id frame (socket s.attempts) s

  unfoldable pub write : ℕ → List ℕ → Queue → Queue
  write id frame s =
      if not s.blocked
      then write_frame id frame s
      else if ltb (s.max_queued_bytes - s.queued_bytes) (length frame)
      then reject_pending id queue_full s
      else record s {
        writes =
            s.writes
            ++ (record {
              serial = s.next_serial;
              bytes = length frame;
              frame = some frame;
              request_id = id;
            }
                ∷ []);
        by_request = set ℕ_discrete id s.next_serial s.by_request;
        queued_bytes = s.queued_bytes + length frame;
        next_serial = s.next_serial + 1;
      }

  module _ (has_pending : ℕ → Bool) where
    -- One turn of the loop, with the entry at the head.
    abbrev pub flush_frame : QueuedWrite → Option (List ℕ) → Queue → Queue
    flush_frame q none s = record s { head = s.head + 1; tombstones = s.tombstones - 1 }
    flush_frame q (some frame) s =
        let s1 = take_head q s in
        if has_pending q.request_id then write_frame q.request_id frame s1 else s1

    abbrev pub flush_entry : Option QueuedWrite → Queue → Queue
    flush_entry none s = record s { head = s.head + 1 }
    flush_entry (some q) s = flush_frame q q.frame s

    -- The loop, on fuel.
    unfoldable pub flush_loop : ℕ → Queue → Queue
    flush_loop zero s = s
    flush_loop (suc fuel) s =
        let rest = flush_loop fuel (flush_entry (get_elem? s.writes s.head) s) in
        if not s.blocked && ltb s.head (length s.writes) then rest else s

    unfoldable pub flush : Bool → Queue → Queue
    flush true s = clear s
    flush false s = trim_head (flush_loop (length s.writes - s.head) (record s { blocked = false }))
