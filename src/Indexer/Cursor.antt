-- ===== src/Indexer/Cursor.antt =====
-- x/indexer/cursor.go: the cursor and its JSON form in the state database. An int64 or int is its
-- bit pattern, below 2 ^ 64.
use Prim.Native.String.{String}
use dwh.Base.{
  ℕ, ◌+◌, ◌-◌, ◌%◌, ◌<◌, ◌≡◌, refl, Bool, List, [], ◌∷◌, arith, ltb, str_eq, if◌then◌else◌, inl,
  inr, Bool-cases,
}
use dwh.Env.Calls.{Reply, reply, failure}

abbrev pub word : ℕ
word = 18446744073709551616

abbrev pub half : ℕ
half = 9223372036854775808

-- `a < b` on two int values.
abbrev pub int_lt : ℕ → ℕ → Bool
int_lt a b = ltb ((a + half) % word) ((b + half) % word)

pub record Cursor : Type 0 where
  pub height : ℕ
  pub tx_index : ℕ
  pub msg_id : ℕ

-- `&cursor{}`
abbrev pub zero_cursor : Cursor
zero_cursor = record { height = 0; tx_index = 0; msg_id = 0 }

-- `updateCursor(1, 0, 0)`, and `updateCursor(m.cursor.Height+1, 0, 0)`.
abbrev pub first_cursor : Cursor
first_cursor = record { height = 1; tx_index = 0; msg_id = 0 }

abbrev pub next : Cursor → Cursor
next c = record { height = (c.height + 1) % word; tx_index = 0; msg_id = 0 }

-- A JSON integer.
pub data Number : Type 0 where
  positive : ℕ → Number
  negative : ℕ → Number

-- Bytes, as `json.Unmarshal` reads them: an object of integers, or a text that it refuses.
pub data Stored : Type 0 where
  object : List (String × Number) → Stored
  malformed : String → Stored

abbrev write_int : ℕ → Number
write_int n = if ltb n half then positive n else negative (word - n)

abbrev read_int : Number → Reply ℕ
read_int (positive n) = if ltb n half then reply n else failure "cannot unmarshal number"
read_int (negative n) =
    if ltb half n then failure "cannot unmarshal number" else reply ((word - n) % word)

abbrev read_uint32 : Number → Reply ℕ
read_uint32 (positive n) = if ltb n 4294967296 then reply n else failure "cannot unmarshal number"
read_uint32 (negative n) = failure "cannot unmarshal number"

unfoldable pub marshal : Cursor → Stored
marshal c = object (
    ("Height", write_int c.height)
    ∷ ("TxIndex", positive c.tx_index)
    ∷ ("MsgID", write_int c.msg_id)
    ∷ [])

-- One key of the object; a key that the struct does not have is passed over.
unfoldable pub assign : String → Number → Cursor → Reply Cursor
assign key v c =
    if str_eq key "Height"
    then (elim (read_int v) [ reply n ↦ reply (record c { height = n }) | failure e ↦ failure e ])
    else if str_eq key "TxIndex"
    then (elim (read_uint32 v) [
      | reply n ↦ reply (record c { tx_index = n })
      | failure e ↦ failure e
    ])
    else if str_eq key "MsgID"
    then (elim (read_int v) [ reply n ↦ reply (record c { msg_id = n }) | failure e ↦ failure e ])
    else reply c

unfoldable pub assign_all : List (String × Number) → Cursor → Reply Cursor
unfolding assign
assign_all [] c = reply c
assign_all ((key, v) ∷ l) c = elim (assign key v c) [
  | reply c' ↦ assign_all l c'
  | failure e ↦ failure e
]

-- The callers only use the cursor of a call that succeeds.
unfoldable pub unmarshal : Stored → Cursor → Reply Cursor
unfolding assign_all
unmarshal (object l) c = assign_all l c
unmarshal (malformed e) c = failure e

-- The fields fit their Go types.
pub record InRange (c : Cursor) : Type 0 where
  pub height : c.height < word
  pub tx_index : c.tx_index < 4294967296
  pub msg_id : c.msg_id < word

read_int-write_int : (n : ℕ) → n < word → read_int (write_int n) ≡ reply n
read_int-write_int n h = elim (Bool-cases (ltb n half)) [
  | inl e ↦ rw (e, e) refl
  | inr e ↦ ground arith
]

-- The JSON form of a cursor whose fields fit their types is read back as the same cursor, whatever
-- was in the variable that it is read into.
pub unmarshal-marshal_cursor : (c d : Cursor) → InRange c → unmarshal (marshal c) d ≡ reply c
unfolding marshal unmarshal
unmarshal-marshal_cursor c d r =
    ground (
      arith,
      read_int-write_int c.height r.height,
      read_int-write_int c.msg_id r.msg_id,
      r.tx_index,
    )
