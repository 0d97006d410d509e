-- ===== src/PendingReqs/Oldest.antt =====
-- What becomes of the queue when the request at its start is completed
-- (src/ipc/server/pending-reqs.c).
use dicey_rust.Prelude.{◌+◌, ◌-◌, ◌%◌, none, get_or, set}
use dicey_rust.PendingReqs.{Pending, next_index, zeroed, size_mod}

module _ {ℓ} {M : Type ℓ} where
  -- The queue without its first place.
  abbrev pub advanced : Pending M → Pending M
  advanced p = record {
    last_seq = p.last_seq;
    start = next_index p p.start;
    end_ = p.end_;
    len = (p.len + size_mod - 1) % size_mod;
    cap = p.cap;
    reqs =
        set p.reqs p.start
          (record { packet_seq = (get_or p.reqs p.start zeroed).packet_seq; message = none });
  }
