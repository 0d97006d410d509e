-- ===== src/Hashtable/LinkedCells.antt =====
-- The cells after the append of one to a bucket of src/sup/hashtable.c.
use dicey_rust.Prelude.{ℕ, ◌<◌, ◌≡◌, ◌≢◌, sym, ap, ◌∙◌, some, List, arith, ℕ_discrete}
use dicey_rust.Hashtable.{Entry, Cells, Hashtable, set_cell}
use dicey_rust.Hashtable.Setting.{linked_cells}
use dicey_rust.Hashtable.Find.{Walk}
use dicey_rust.Hashtable.Kept.{set_cell_same, set_cell_other}

pub Walk-more :
    (cells : Cells) (i j : ℕ) → Walk cells i j → (cells j).next ≢ 0 → Walk cells i (cells j).next
Walk-more cells i j Walk.here more = Walk.there more Walk.here
Walk-more cells i j (Walk.there go walk) more =
    Walk.there go (Walk-more cells (cells i).next j walk more)

module _ (t : Hashtable) (last v : ℕ) (k : List ℕ) (inside : last < t.free_cur) where
  abbrev pub cells' : Cells
  cells' = linked_cells t.entries t.free_cur last k v

  abbrev pub new_cell : Entry
  new_cell = record { key = some k; value = v; next = 0 }

  linked_other : (i : ℕ) → i ≢ last → i ≢ t.free_cur → cells' i ≡ t.entries i
  unfolding linked_cells
  linked_other i n m =
      set_cell_other (set_cell t.entries t.free_cur new_cell) last i _ n
      ∙ set_cell_other t.entries t.free_cur i new_cell m

  linked_new : cells' t.free_cur ≡ new_cell
  unfolding linked_cells
  linked_new =
      set_cell_other (set_cell t.entries t.free_cur new_cell) last t.free_cur _ (λ e. omega arith)
      ∙ set_cell_same t.entries t.free_cur new_cell

  linked_last :
      cells' last
      ≡ record { key = (t.entries last).key; value = (t.entries last).value; next = t.free_cur }
  unfolding linked_cells
  linked_last =
      set_cell_same (set_cell t.entries t.free_cur new_cell) last _
      ∙ ap (λ (x : Entry). record { key = x.key; value = x.value; next = t.free_cur })
          (set_cell_other t.entries t.free_cur last new_cell (λ e. omega arith))

  pub linked_new_key : (cells' t.free_cur).key ≡ some k
  linked_new_key = ap (λ (x : Entry). x.key) linked_new

  pub linked_new_value : (cells' t.free_cur).value ≡ v
  linked_new_value = ap (λ (x : Entry). x.value) linked_new

  pub linked_key : (i : ℕ) → i ≢ t.free_cur → (cells' i).key ≡ (t.entries i).key
  linked_key i n = elim (ℕ_discrete i last) [
    | yes e ↦
        ap (λ j. (cells' j).key) e
        ∙ ap (λ (x : Entry). x.key) linked_last
        ∙ ap (λ j. (t.entries j).key) (sym e)
    | no m ↦ ap (λ (x : Entry). x.key) (linked_other i m n)
  ]

  pub linked_value : (i : ℕ) → i ≢ t.free_cur → (cells' i).value ≡ (t.entries i).value
  linked_value i n = elim (ℕ_discrete i last) [
    | yes e ↦
        ap (λ j. (cells' j).value) e
        ∙ ap (λ (x : Entry). x.value) linked_last
        ∙ ap (λ j. (t.entries j).value) (sym e)
    | no m ↦ ap (λ (x : Entry). x.value) (linked_other i m n)
  ]

  pub linked_next_new : (cells' t.free_cur).next ≡ 0
  linked_next_new = ap (λ (x : Entry). x.next) linked_new

  pub linked_next_last : (cells' last).next ≡ t.free_cur
  linked_next_last = ap (λ (x : Entry). x.next) linked_last

  pub linked_next : (i : ℕ) → i ≢ last → i ≢ t.free_cur → (cells' i).next ≡ (t.entries i).next
  linked_next i n m = ap (λ (x : Entry). x.next) (linked_other i n m)
