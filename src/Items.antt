-- ===== src/Items.antt =====
-- src/items.h and src/items.c: the one item that answers every lookup.
use synthetic_client.Base.{ℕ, ◌+◌, Option, some}
use synthetic_client.Conn.{Ptr, item_data}

-- `data` is the region `item_data`; `allocated` bytes of it belong to the block.
pub record Item : Type 0 where
  pub nkey : ℕ
  pub nsuffix : ℕ
  pub nbytes : ℕ
  pub allocated : ℕ

-- The block ends where `data[7]` would begin, and as many bytes are copied into it.
unfoldable pub item_init_system : Item
item_init_system = record { nkey = 4; nsuffix = 5; nbytes = 7; allocated = 7 }

-- Every key is a hit.
unfoldable pub item_get : Item → ℕ → Option Item
item_get fixed_item nkey = some fixed_item

abbrev pub item_key : Item → Ptr
item_key it = record { region = item_data; offset = 0 }

abbrev pub item_suffix : Item → Ptr
item_suffix it = record { region = item_data; offset = it.nkey + 1 }
