-- ===== src/LoadTable/Items.antt =====
-- The items that lie in the block of a load table, one behind the other (loadtable.cpp).
use Prim.{Unit}
use spp_server_frame_work.Base.{
  NoNul, ℕ, zero, suc, ◌+◌, ◌^◌, ◌<◌, ◌≤◌, ◌≡◌, refl, sym, ap, ◌∙◌, Bool, List, [], ◌∷◌, ◌++◌,
  length, le_bytes, of_le, of_le-le_bytes, arith, Memory, copy_out, copy_out-parts, length-append,
  ==-eq_false, ◌==◌, ◌&&◌, if◌then◌else◌,
}
use spp_server_frame_work.LoadTable.{CLoadTable, header_bytes, padded, str_equal, same_key, zeros}

pub record Item : Type 0 where
  pub key : List ℕ
  pub timestamp : ℕ
  pub content : List ℕ

-- A key that leaves room for the byte that ends it, and a length that fits the header.
pub record ItemFits (i : Item) : Type 0 where
  pub key_ends : length i.key < 32
  pub key_chars : NoNul i.key
  pub content_fits : length i.content < 2 ^ 16

abbrev pub AllFit : List Item → Type 0
AllFit [] = Unit
AllFit (i ∷ is) = ItemFits i × AllFit is

abbrev pub item_bytes : Item → List ℕ
item_bytes i = header_bytes i.key i.timestamp (length i.content) ++ i.content

abbrev pub table_bytes : List Item → List ℕ
table_bytes [] = []
table_bytes (i ∷ is) = item_bytes i ++ table_bytes is

-- Where an item with this key lies, behind `pos` bytes, and its length; zeros if there is none.
abbrev pub place_of : List Item → List ℕ → ℕ → ℕ × ℕ
place_of [] key pos = (0, 0)
place_of (i ∷ is) key pos =
    let rest = place_of is key (pos + 40 + length i.content) in
    if same_key i.key key then (pos + 40, length i.content) else rest

-- The table holds these items.
pub record Holds (t : CLoadTable) (is : List Item) : Type 0 where
  pub tail_is : t.tail ≡ length (table_bytes is)
  pub bytes_are : copy_out t.block 0 t.tail ≡ table_bytes is
  pub all_fit : AllFit is
  pub small : t.blocksize < 2 ^ 31
  pub in_block : t.tail ≤ t.blocksize

pub length-padded : (n : ℕ) (key : List ℕ) → length (padded n key) ≡ n
length-padded zero key = refl
length-padded (suc n) [] = ap suc (length-padded n [])
length-padded (suc n) (x ∷ key) = ap suc (length-padded n key)

pub length-header_bytes : (key : List ℕ) (time n : ℕ) → length (header_bytes key time n) ≡ 40
length-header_bytes key time n =
    length-append (padded 32 key) (le_bytes 4 time ++ 0 ∷ 0 ∷ le_bytes 2 n)
    ∙ ap (λ k. k + 8) (length-padded 32 key)

pub length-item_bytes : (i : Item) → length (item_bytes i) ≡ 40 + length i.content
length-item_bytes i =
    length-append (header_bytes i.key i.timestamp (length i.content)) i.content
    ∙ ap (λ k. k + length i.content) (length-header_bytes i.key i.timestamp (length i.content))

pub length-zeros : (n : ℕ) → length (zeros n) ≡ n
length-zeros zero = refl
length-zeros (suc n) = ap suc (length-zeros n)

-- `strcmp` finds the padded key equal to just that key.
pub str_equal-padded :
    (n : ℕ) (key key' more : List ℕ)
    → length key < n
    → NoNul key
    → NoNul key'
    → str_equal (padded n key ++ more) key' ≡ same_key key key'
str_equal-padded zero key key' more lt h h' = absurd (omega arith)
str_equal-padded (suc n) [] [] more lt h h' = refl
str_equal-padded (suc n) [] (y ∷ key') more lt h (y_ne, h') =
    rw (==-eq_false 0 y (λ e. y_ne (sym e))) refl
str_equal-padded (suc n) (x ∷ key) [] more lt (x_ne, h) h' = ==-eq_false x 0 x_ne
str_equal-padded (suc n) (x ∷ key) (y ∷ key') more lt (x_ne, h) (y_ne, h') =
    ap (λ (b : Bool). (x == y) && b) (str_equal-padded n key key' more (omega arith) h h')

-- The parts of an item in the block.
module _ (block : Memory) (pos : ℕ) (i : Item) (rest : List ℕ) (f : ItemFits i) where
  module _ (at : copy_out block pos (length (item_bytes i ++ rest)) ≡ item_bytes i ++ rest) where
    abbrev header : List ℕ
    header = header_bytes i.key i.timestamp (length i.content)

    item_at : copy_out block pos (length (item_bytes i)) ≡ item_bytes i
    item_at = (copy_out-parts block (item_bytes i) rest pos at).0

    header_at : copy_out block pos (length header) ≡ header
    header_at = (copy_out-parts block header i.content pos item_at).0

    pub key_at : copy_out block pos 40 ≡ header
    key_at =
        ap (copy_out block pos) (sym (length-header_bytes i.key i.timestamp (length i.content)))
        ∙ header_at

    pub len_at : of_le (copy_out block (pos + 38) 2) ≡ length i.content
    len_at =
        let n = length i.content in
        let keys = padded 32 i.key in
        let numbers = le_bytes 4 i.timestamp ++ 0 ∷ 0 ∷ le_bytes 2 n in
        let behind = (copy_out-parts block keys numbers pos header_at).1 in
        let last =
          (copy_out-parts block (le_bytes 4 i.timestamp ++ 0 ∷ 0 ∷ []) (le_bytes 2 n)
            (pos + length keys) behind).1 in
        let size = length-padded 32 i.key in
        ap (λ k. of_le (copy_out block k 2)) (omega arith)
        ∙ ap of_le last
        ∙ of_le-le_bytes 2 n f.content_fits

    pub rest_at : copy_out block (pos + 40 + length i.content) (length rest) ≡ rest
    rest_at =
        let size = length-item_bytes i in
        ap (λ k. copy_out block k (length rest)) (omega arith)
        ∙ (copy_out-parts block (item_bytes i) rest pos at).1
