-- ===== src/ClientData/Subscriptions.antt =====
-- The subscriptions of a client (src/ipc/server/client-data.c), on the sets of src/sup/hashset.c.
use dicey_rust.Prelude.{ℕ, ◌≡◌, ◌||◌, Option, List, text_eq, Result, ok, err, enomem}
use dicey_rust.Hashtable.{Hashtable}
use dicey_rust.ClientData.{is_subscribed}

-- What a subscription leaves: the element is subscribed to, besides what was; or an error, and no
-- change.
abbrev pub SubscribeGives :
    Option Hashtable → List ℕ → Option Hashtable → Result (Unit {0}) → Type 0
SubscribeGives old k new (ok u) =
    (s : List ℕ) → is_subscribed new s ≡ text_eq s k || is_subscribed old s
SubscribeGives old k new (err e) =
    (e ≡ enomem) × ((s : List ℕ) → is_subscribed new s ≡ is_subscribed old s)
