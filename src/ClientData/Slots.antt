-- ===== src/ClientData/Slots.antt =====
-- The slots of the client list of src/ipc/server/client-data.c.
use dicey_rust.Prelude.{ℕ, ◌≡◌, ◌≢◌, Option, none, some}
use dicey_rust.ClientData.{ClientList, fill_bucket, get_client}

module _ {ℓ} {C : Type ℓ} where
  -- What a reservation gives: an empty slot that the caller can fill, or no list at all.
  abbrev pub BucketGives : ClientList C → C → Option ℕ × ClientList C → Type ℓ
  BucketGives list c (none, list') = list' ≡ none
  BucketGives list c (some i, list') =
      (get_client list i ≡ none)
      × (get_client (fill_bucket list' i c) i ≡ some c)
      × ((j : ℕ) → j ≢ i → get_client (fill_bucket list' i c) j ≡ get_client list j)
