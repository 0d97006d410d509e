-- ===== src/ClientData.antt =====
-- The clients of a server: the list of their slots, and their subscriptions
-- (src/ipc/server/client-data.c).
--
-- A list is its slots, of which there are as many as its capacity; NULL is `none`, in a slot and as a
-- list. A client is a parameter. `realloc` answers by the number of slots.
pub mod Slots
pub mod Subscriptions
use dicey_rust.Prelude.{
  ℕ, zero, suc, ◌+◌, ◌-◌, ◌*◌, ◌/◌, Bool, true, false, Option, none, some, List, [], ◌∷◌, ◌++◌,
  length, replicate, get_or, set, ltb, ◌==◌, if◌then◌else◌, Result, ok, err, enomem, ptrdiff_max,
}
use dicey_rust.ViewMut.{Calloc}
use dicey_rust.Hashtable.{Hashtable}
use dicey_rust.Hashtable.Setting.{HashSetResult, failed, added, updated}
use dicey_rust.Hashset.{hashset_add, hashset_contains, hashset_remove}

-- `struct dicey_client_list`
abbrev pub ClientList {ℓ} : Type ℓ → Type ℓ
ClientList C = Option (List (Option C))

unfoldable pub cap_of {ℓ} : {C : Type ℓ} → ClientList C → ℕ
cap_of none = 0
cap_of (some slots) = length slots

unfoldable pub slots_of {ℓ} : {C : Type ℓ} → ClientList C → List (Option C)
slots_of none = []
slots_of (some slots) = slots

-- The capacity that `client_list_grow` asks for. It does not wrap: the old one is that of a block of
-- memory with eight bytes for each slot, and so below 2^61.
unfoldable pub next_cap : ℕ → ℕ
next_cap cap = if cap == 0 then 128 else cap * 3 / 2

-- `client_list_grow`, which zeroes the new slots
unfoldable pub client_list_grow {ℓ} : {C : Type ℓ} → Calloc → ClientList C → ClientList C
unfolding cap_of slots_of next_cap
client_list_grow calloc list =
    if ltb ptrdiff_max (next_cap (cap_of list))
    then none
    else if calloc (next_cap (cap_of list))
    then some (slots_of list ++ replicate (next_cap (cap_of list) - cap_of list) none)
    else none

-- The search of `dicey_client_list_new_bucket` for an empty slot.
unfoldable pub first_empty {ℓ} : {C : Type ℓ} → List (Option C) → Option ℕ
first_empty [] = none
first_empty (none ∷ slots) = some 0
first_empty (some c ∷ slots) = elim (first_empty slots) [ none ↦ none | some i ↦ some (suc i) ]

-- `dicey_client_list_new_bucket` at a full list: the pointer to the list is that of the new block,
-- and so it is NULL when there is none.
unfoldable pub bucket_behind {ℓ} : {C : Type ℓ} → ℕ → ClientList C → Option ℕ × ClientList C
bucket_behind old_cap none = (none, none)
bucket_behind old_cap (some slots) = (some old_cap, some slots)

-- `dicey_client_list_new_bucket`, and `dicey_server_reserve_id`, which makes ENOMEM of its false: the
-- index of an empty slot, and what the list pointer points to afterwards.
unfoldable pub new_bucket {ℓ} : {C : Type ℓ} → Calloc → ClientList C → Option ℕ × ClientList C
unfolding first_empty bucket_behind client_list_grow
new_bucket calloc list = elim (first_empty (slots_of list)) [
  | some i ↦ (some i, list)
  | none ↦ bucket_behind (cap_of list) (client_list_grow calloc list)
]

-- The caller of `dicey_client_list_new_bucket` puts the new client into the slot.
unfoldable pub fill_bucket {ℓ} : {C : Type ℓ} → ClientList C → ℕ → C → ClientList C
fill_bucket none i c = none
fill_bucket (some slots) i c = some (set slots i (some c))

-- `dicey_client_list_get_client`
unfoldable pub get_client {ℓ} : {C : Type ℓ} → ClientList C → ℕ → Option C
get_client none id = none
get_client (some slots) id = get_or slots id none

-- `dicey_client_list_drop_client`, of a list that is not NULL, and `dicey_server_release_id`
unfoldable pub drop_client {ℓ} : {C : Type ℓ} → List (Option C) → ℕ → Option C × List (Option C)
drop_client slots id = (get_or slots id none, set slots id none)

-- `dicey_client_list_is_empty`
unfoldable pub is_empty {ℓ} : {C : Type ℓ} → List (Option C) → Bool
is_empty [] = true
is_empty (none ∷ slots) = is_empty slots
is_empty (some c ∷ slots) = false

-- The answer of `dicey_client_data_subscribe` for the result of the set.
unfoldable pub subscribed : HashSetResult → Result (Unit {0})
subscribed failed = err enomem
subscribed added = ok tt
subscribed updated = ok tt

-- `dicey_client_data_subscribe`, on the subscriptions of a client
unfoldable pub subscribe :
    Calloc → Calloc → Option Hashtable → List ℕ → Option (Result (Unit {0}) × Option Hashtable)
unfolding subscribed
subscribe calloc strdup subscriptions elemdescr =
    elim (hashset_add calloc strdup subscriptions elemdescr) [
      | none ↦ none
      | some (result, set') ↦ some (subscribed result, set')
    ]

-- `dicey_client_data_unsubscribe`
unfoldable pub unsubscribe : Option Hashtable → List ℕ → Bool × Option Hashtable
unsubscribe subscriptions elemdescr = hashset_remove subscriptions elemdescr

-- `dicey_client_data_is_subscribed`
unfoldable pub is_subscribed : Option Hashtable → List ℕ → Bool
is_subscribed subscriptions elemdescr = hashset_contains subscriptions elemdescr
