-- ===== src/LoadTable/Search.antt =====
-- `findblock` and Init_LoadItem on a table that holds items (loadtable.cpp).
use Prim.{tt}
use spp_server_frame_work.Base.{
  NoNul, ℕ, zero, suc, ◌+◌, ◌^◌, ◌<◌, ◌≤◌, ◌≡◌, refl, sym, ap, ◌∙◌, true, some, none, List, [], ◌∷◌,
  ◌++◌, length, le_bytes, add32, arith, Memory, put, copy_out, copy_out-put_next, length-append,
  append_assoc, append-nil, lt→ltb, le→leb, le→not_ltb, lt→not_leb, Bool-cases, dec_lt, inl, inr,
  ltb, leb, ◌==◌, ==-eq_false, ==-refl,
}
use spp_server_frame_work.LoadTable.{
  CLoadTable, find_item, find_loop, findblock, allocate, init_load_item, header_bytes, same_key,
  zeros,
}
use spp_server_frame_work.LoadTable.Items.{
  Item, ItemFits, AllFit, item_bytes, table_bytes, place_of, Holds, str_equal-padded,
  length-header_bytes, length-item_bytes, length-zeros, key_at, len_at, rest_at,
}

find_loop-table :
    (is : List Item) (fuel pos tail : ℕ) (block : Memory) (key : List ℕ)
    → AllFit is
    → NoNul key
    → length is < fuel
    → tail ≡ pos + length (table_bytes is)
    → copy_out block pos (length (table_bytes is)) ≡ table_bytes is
    → find_loop fuel block key tail pos ≡ some (place_of is key pos)
unfolding find_loop
find_loop-table is zero pos tail block key f k enough t at = absurd (omega arith)
find_loop-table [] (suc fuel) pos tail block key f k enough t at =
    rw (le→not_ltb pos tail (omega arith)) refl
find_loop-table (i ∷ is) (suc fuel) pos tail block key (f, fs) k enough t at =
    let rest = table_bytes is in
    let n = length i.content in
    let after = pos + 40 + n in
    let sizes : length (item_bytes i ++ rest) ≡ 40 + n + length rest =
      omega (arith, length-append (item_bytes i) rest, length-item_bytes i) in
    let inside : ltb pos tail ≡ true = lt→ltb pos tail (omega arith) in
    let whole : leb after tail ≡ true = le→leb after tail (omega arith) in
    let numbers = le_bytes 4 i.timestamp ++ 0 ∷ 0 ∷ le_bytes 2 n in
    let same = str_equal-padded 32 i.key key numbers f.key_ends f.key_chars k in
    let later =
      find_loop-table is fuel after tail block key fs k (omega arith) (omega arith)
        (rest_at block pos i rest f at) in
    rw (key_at block pos i rest f at, len_at block pos i rest f at, inside, whole, same, later)
      (elim (Bool-cases (same_key i.key key)) [ inl e ↦ rw e refl | inr e ↦ rw e refl ])

place_of-empty :
    (is : List Item) (key : List ℕ) (pos : ℕ)
    → length (table_bytes is) ≡ 0
    → place_of is key pos ≡ (0, 0)
place_of-empty [] key pos e = refl
place_of-empty (i ∷ is) key pos e =
    absurd (omega (arith, length-append (item_bytes i) (table_bytes is), length-item_bytes i))

-- For a table that holds items and has a byte left, a key without a byte 0, and more rounds than items:
-- findblock ends, and gives the place and the length of the first item with the key, or zeros.
pub findblock-Holds :
    (fuel : ℕ) (t : CLoadTable) (is : List Item) (key : List ℕ)
    → Holds t is
    → NoNul key
    → t.tail < t.blocksize
    → length is < fuel
    → findblock fuel t key ≡ some (place_of is key 0)
unfolding findblock
findblock-Holds fuel t is key h k room enough =
    let found =
      find_loop-table is fuel 0 t.tail t.block key h.all_fit k enough (omega (arith, h.tail_is))
        (ap (copy_out t.block 0) (sym h.tail_is) ∙ h.bytes_are) in
    elim (dec_lt 0 t.tail) [
      | yes some_items ↦
          rw (==-eq_false 0 t.tail (λ e. absurd (omega arith)), lt→not_leb t.blocksize t.tail room)
            found
      | no no_items ↦
          (let none_there : t.tail ≡ 0 = omega arith in
            rw none_there (ap some (sym (place_of-empty is key 0 (sym h.tail_is ∙ none_there)))))
    ]

-- For a table whose items fill it to the last byte: findblock finds none of them.
pub findblock-filled :
    (fuel : ℕ) (t : CLoadTable) (key : List ℕ)
    → t.tail ≡ t.blocksize
    → findblock fuel t key ≡ some (0, 0)
unfolding findblock
findblock-filled fuel t key full =
    rw (le→leb t.blocksize t.tail (omega arith))
      (elim (Bool-cases (0 == t.tail)) [ inl e ↦ rw e refl | inr e ↦ rw e refl ])

table_bytes-append :
    (is : List Item) (i : Item) → table_bytes (is ++ i ∷ []) ≡ table_bytes is ++ item_bytes i
table_bytes-append [] i = append-nil (item_bytes i)
table_bytes-append (j ∷ is) i =
    ap (λ l. item_bytes j ++ l) (table_bytes-append is i)
    ∙ sym (append_assoc (item_bytes j) (table_bytes is) (item_bytes i))

AllFit-append : (is : List Item) (i : Item) → AllFit is → ItemFits i → AllFit (is ++ i ∷ [])
AllFit-append [] i fs f = (f, tt)
AllFit-append (j ∷ is) i (f', fs) f = (f', AllFit-append is i fs f)

-- A table with one more item.
allocate-Holds :
    (t : CLoadTable) (is : List Item) (key : List ℕ) (len : ℕ)
    → Holds t is
    → ItemFits (record { key = key; timestamp = 0; content = zeros len })
    → t.tail + 40 + len ≤ t.blocksize
    → Holds
        (allocate t key len).0
        (is ++ record { key = key; timestamp = 0; content = zeros len } ∷ [])
      × ((allocate t key len).1 ≡ len)
unfolding allocate
allocate-Holds t is key len h f room =
    let end : add32 (t.tail + 40) len ≡ t.tail + 40 + len = omega (arith, h.small) in
    let i : Item = record { key = key; timestamp = 0; content = zeros len } in
    let l = table_bytes is in
    let bytes = header_bytes key 0 len in
    let b1 = put t.block t.tail bytes in
    let size = length-header_bytes key 0 len in
    let l1 : copy_out b1 0 (t.tail + 40) ≡ l ++ bytes =
      copy_out-put_next t.block 0 l bytes t.tail (t.tail + 40) (omega (arith, h.tail_is))
        (omega (arith, h.tail_is, size)) (ap (copy_out t.block 0) (sym h.tail_is) ∙ h.bytes_are) in
    let end_size : t.tail + 40 ≡ length (l ++ bytes) =
      omega (arith, length-append l bytes, size, h.tail_is) in
    let l2 =
      copy_out-put_next b1 0 (l ++ bytes) (zeros len) (t.tail + 40) (t.tail + 40 + len)
        (omega (arith, end_size)) (omega (arith, end_size, length-zeros len))
        (ap (copy_out b1 0) (sym end_size) ∙ l1) in
    let named : bytes ≡ header_bytes key 0 (length (zeros len)) =
      ap (header_bytes key 0) (sym (length-zeros len)) in
    let all : l ++ bytes ++ zeros len ≡ table_bytes (is ++ i ∷ []) =
      append_assoc l bytes (zeros len)
      ∙ ap (λ b. l ++ (b ++ zeros len)) named
      ∙ sym (table_bytes-append is i) in
    rw (end, le→not_ltb t.blocksize (t.tail + 40 + len) room)
      (
        record {
          tail_is = omega (
            arith,
            ap length all,
            length-append (l ++ bytes) (zeros len),
            length-zeros len,
            end_size,
          );
          bytes_are = l2 ∙ all;
          all_fit = AllFit-append is i h.all_fit f;
          small = h.small;
          in_block = room;
        },
        refl,
      )

same_key_refl : (key : List ℕ) → same_key key key ≡ true
same_key_refl [] = refl
same_key_refl (x ∷ key) = rw (==-refl x) (same_key_refl key)

-- The map has the new item.
allocate-known :
    (t : CLoadTable) (key : List ℕ) (len : ℕ)
    → t.blocksize < 2 ^ 32
    → t.tail + 40 + len ≤ t.blocksize
    → find_item (allocate t key len).0.items key ≡ some (record { len = len; pos = t.tail + 40 })
unfolding allocate find_item
allocate-known t key len small room =
    let end : add32 (t.tail + 40) len ≡ t.tail + 40 + len = omega arith in
    rw (end, le→not_ltb t.blocksize (t.tail + 40 + len) room, same_key_refl key) refl

-- For a table that holds items, a key that is in neither the map nor the block, fits a header and has no
-- byte 0, more rounds than items, and room for a header and `len` bytes: Init_LoadItem ends, returns
-- `len`, and the table holds one more item, of zeros, which the map has under the key.
pub init_load_item-Holds :
    (fuel : ℕ) (t : CLoadTable) (is : List Item) (key : List ℕ) (len : ℕ)
    → Holds t is
    → ItemFits (record { key = key; timestamp = 0; content = zeros len })
    → length is < fuel
    → find_item t.items key ≡ none
    → place_of is key 0 ≡ (0, 0)
    → t.tail + 40 + len ≤ t.blocksize
    → (let t' = (allocate t key len).0 in
        (init_load_item fuel t key len ≡ some (t', len))
        × Holds t' (is ++ record { key = key; timestamp = 0; content = zeros len } ∷ [])
        × (find_item t'.items key ≡ some (record { len = len; pos = t.tail + 40 })))
unfolding init_load_item
init_load_item-Holds fuel t is key len h f enough unknown absent room =
    let found = findblock-Holds fuel t is key h f.key_chars (omega arith) enough in
    let (holds, returned) = allocate-Holds t is key len h f room in
    let made : some (allocate t key len) ≡ some ((allocate t key len).0, len) =
      ap (λ (n : ℕ). some ((allocate t key len).0, n)) returned in
    (
      rw (unknown, found, absent) made,
      holds,
      allocate-known t key len (omega (arith, h.small)) room,
    )
