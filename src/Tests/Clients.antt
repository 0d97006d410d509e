-- ===== src/Tests/Clients.antt =====
-- Clients of a server, the buffer of their bytes, and the waiting list of a client
-- (src/ipc/server/client-data.c, src/ipc/chunk.c, src/ipc/client/waiting-list.c).
use dicey_rust.Prelude.{ℕ, none, some, [], ◌∷◌}
use dicey_rust.Hashtable.{Hashtable}
use dicey_rust.ClientData.{ClientList}
use dicey_rust.Chunk.{Chunk}
use dicey_rust.WaitingList.{WaitingList, remove_seq, remove_task}
use dicey_rust.WaitingList.Removes.{seq_field, id_field, TakesFirst, remove_seq-remove_task}

abbrev two_slots : ClientList ℕ
two_slots = some (some 5 ∷ none ∷ [])

abbrev half_full : Chunk
half_full = record { len = 500; cap = 1024 }

abbrev two_tasks : WaitingList
two_tasks = record {
  items = record { packet_seq = 2; task_id = 7 } ∷ record { packet_seq = 4; task_id = 8 } ∷ [];
  cap = 128;
}

remove_seq-remove_task_example :
    TakesFirst seq_field id_field 4 two_tasks (remove_seq two_tasks 4)
    × TakesFirst id_field seq_field 4 two_tasks (remove_task (some two_tasks) 4)
remove_seq-remove_task_example = remove_seq-remove_task two_tasks 4
