-- ===== src/LoadTable/Tests.antt =====
-- CLoadTable at concrete inputs.
use Prim.{tt}
use spp_server_frame_work.Base.{
  ◌≡◌, refl, inl, some, none, List, [], ◌∷◌, ◌++◌, arith, put, copy_out, copy_out-put_self, NoNul,
}
use spp_server_frame_work.LoadTable.{
  CLoadTable, findblock, find_item, allocate, init_load_item, read, write, returned, zeros,
}
use spp_server_frame_work.LoadTable.Items.{Item, ItemFits, Holds, table_bytes}
use spp_server_frame_work.LoadTable.Search.{findblock-Holds, init_load_item-Holds}
use spp_server_frame_work.LoadTable.Access.{Known, read-write, read-write_other}

-- Two items, "a" with two bytes and "b" with three.
abbrev items : List Item
items =
    record { key = 97 ∷ []; timestamp = 5; content = 1 ∷ 2 ∷ [] }
    ∷ record { key = 98 ∷ []; timestamp = 6; content = 7 ∷ 8 ∷ 9 ∷ [] }
    ∷ []

abbrev table : CLoadTable
table = record {
  tail = 85;
  block = put (λ i. 0) 0 (table_bytes items);
  blocksize = 200;
  items = (97 ∷ [], record { len = 2; pos = 40 }) ∷ (98 ∷ [], record { len = 3; pos = 82 }) ∷ [];
}

not_nul : NoNul (98 ∷ [])
not_nul = ((λ e. absurd (omega arith)), tt)

table-Holds : Holds table items
table-Holds = record {
  tail_is = refl;
  bytes_are = copy_out-put_self (λ i. 0) 0 (table_bytes items) 85 refl;
  all_fit = (
    record {
      key_ends = omega arith;
      key_chars = ((λ e. absurd (omega arith)), tt);
      content_fits = omega arith;
    },
    (record { key_ends = omega arith; key_chars = not_nul; content_fits = omega arith }, tt),
  );
  small = omega arith;
  in_block = omega arith;
}

findblock-Holds_example : findblock 3 table (98 ∷ []) ≡ some (82, 3)
findblock-Holds_example =
    findblock-Holds 3 table items (98 ∷ []) table-Holds not_nul (omega arith) (omega arith)

abbrev fresh : Item
fresh = record { key = 99 ∷ []; timestamp = 0; content = zeros 4 }

fresh-fits : ItemFits fresh
fresh-fits = record {
  key_ends = omega arith;
  key_chars = ((λ e. absurd (omega arith)), tt);
  content_fits = omega arith;
}

unknown : find_item table.items (99 ∷ []) ≡ none
unfolding find_item
unknown = refl

init_load_item-Holds_example :
    (let t' = (allocate table (99 ∷ []) 4).0 in
      (init_load_item 3 table (99 ∷ []) 4 ≡ some (t', 4))
      × Holds t' (items ++ fresh ∷ [])
      × (find_item t'.items (99 ∷ []) ≡ some (record { len = 4; pos = 125 })))
init_load_item-Holds_example =
    init_load_item-Holds 3 table items (99 ∷ []) 4 table-Holds fresh-fits (omega arith) unknown refl
      (omega arith)

a-Known : Known table (97 ∷ []) (record { len = 2; pos = 40 })
unfolding find_item
a-Known = record { found = refl; headed = omega arith; in_table = omega arith; small = omega arith }

b-Known : Known table (98 ∷ []) (record { len = 3; pos = 82 })
unfolding find_item
b-Known = record { found = refl; headed = omega arith; in_table = omega arith; small = omega arith }

-- Two bytes over three, so that the last stays.
read-write_example :
    (let (t', written) = write table (98 ∷ []) (4 ∷ 5 ∷ []) 1000 in
      (written ≡ some 2)
      × (read t' 100 (98 ∷ []) 60 1030 ≡ returned 3 ((4 ∷ 5 ∷ []) ++ copy_out table.block 84 1)))
read-write_example =
    read-write table (98 ∷ []) (4 ∷ 5 ∷ []) (record { len = 3; pos = 82 }) 100 60 1000 1030 b-Known
      (omega arith) (omega arith)

read-write_other_example :
    read (write table (98 ∷ []) (4 ∷ 5 ∷ []) 1000).0 100 (97 ∷ []) 60 30
    ≡ read table 100 (97 ∷ []) 60 30
read-write_other_example =
    read-write_other table (98 ∷ []) (97 ∷ []) (4 ∷ 5 ∷ []) (record { len = 3; pos = 82 })
      (record { len = 2; pos = 40 }) 100 60 1000 30 b-Known a-Known (inl (omega arith))
