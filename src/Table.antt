-- ===== src/Table.antt =====
-- Tables of lib/lunatik/ltable.c with an array part and a hash part, and what they use of
-- lib/lunatik/lobject.c: values, nodes, main positions, the searches, and the insertion of a key.
pub mod Length
pub mod Rehash
pub mod Insert
mod Examples
use lunatik_ng.Base.{
  ℕ, zero, suc, ◌+◌, ◌-◌, ◌*◌, ◌/◌, ◌%◌, ◌^◌, Bool, true, false, not, ◌&&◌, ◌||◌, Option, none,
  some, List, [], ◌∷◌, ℤ, pos, negsuc, ◌==◌, leb, ltb, is_zero, length, get_or, if◌then◌else◌,
}
use lunatik_ng.Base.Bytes.{to_word}
use lunatik_ng.Kernel.{update}

-- `tt` is the type tag, 5 or above. Strings have their hash; they and the other collectable objects are compared by address.
pub data TValue : Type 0 where
  nil : TValue
  boolean : Bool → TValue
  light_userdata : ℕ → TValue
  number : ℤ → TValue
  string : (ptr hash : ℕ) → TValue
  object : (ptr tt : ℕ) → TValue

abbrev pub is_nil : TValue → Bool
is_nil nil = true
is_nil _ = false

abbrev pub same_number : ℤ → ℤ → Bool
same_number (pos a) (pos b) = a == b
same_number (negsuc a) (negsuc b) = a == b
same_number _ _ = false

abbrev pub same_boolean : Bool → Bool → Bool
same_boolean true b = b
same_boolean false b = not b

unfoldable pub luao_rawequalobj : TValue → TValue → Bool
luao_rawequalobj nil nil = true
luao_rawequalobj (number a) (number b) = same_number a b
luao_rawequalobj (boolean a) (boolean b) = same_boolean a b
luao_rawequalobj (light_userdata a) (light_userdata b) = a == b
luao_rawequalobj (string a _) (string b _) = a == b
luao_rawequalobj (object a tt) (object b tt') = (tt == tt') && (a == b)
luao_rawequalobj _ _ = false

-- `next` is the index of the next node, where there is one.
pub record Node : Type 0 where
  pub i_val : TValue
  pub i_key : TValue
  pub next : Option ℕ

abbrev pub empty_node : Node
empty_node = record { i_val = nil; i_key = nil; next = none }

-- `array` has `sizearray` elements. The hash part has 2 ^ lsizenode nodes, `node`; `dummy` says that it
-- is the node `dummynode` that all tables share.
pub record Table : Type 0 where
  pub array : List TValue
  pub lsizenode : ℕ
  pub node : ℕ → Node
  pub dummy : Bool
  pub lastfree : ℕ

abbrev pub sizenode : Table → ℕ
sizenode t = 2 ^ t.lsizenode

-- `n % ((sizenode(t) - 1) | 1)`: the divisor is odd already, but for one node.
unfoldable pub hashmod : Table → ℕ → ℕ
hashmod t n = let m = sizenode t - 1 in n % (m + 1 - m % 2)

-- The sum of the two halves of a `long`, as an `unsigned int`.
unfoldable pub hashnum : Table → ℤ → ℕ
hashnum t n =
    if is_zero n then 0 else (let w = to_word 8 n in hashmod t ((w % 2 ^ 32 + w / 2 ^ 32) % 2 ^ 32))

-- `lmod` takes the low bits. The key nil has no main position; it is not asked for.
unfoldable pub mainposition : Table → TValue → ℕ
mainposition t nil = 0
mainposition t (number n) = hashnum t n
mainposition t (string _ hash) = hash % sizenode t
mainposition t (boolean b) = (if b then 1 else 0) % sizenode t
mainposition t (light_userdata p) = hashmod t (p % 2 ^ 32)
mainposition t (object p _) = hashmod t (p % 2 ^ 32)

-- Where a search ends: at a value of the table, or at `luaO_nilobject`.
pub data Place : Type 0 where
  in_array in_node : ℕ → Place
  nilobject : Place

unfoldable pub value_at : Table → Place → TValue
value_at t (in_array i) = get_or t.array i nil
value_at t (in_node i) = (t.node i).i_val
value_at t nilobject = nil

-- The loop that follows a chain from a node to the first whose key passes the test. none is a chain
-- that does not end within the fuel.
unfoldable pub search : (fuel : ℕ) → (TValue → Bool) → (ℕ → Node) → ℕ → Option Place
search zero is_key node n = none
search (suc fuel) is_key node n =
    if is_key (node n).i_key
    then some (in_node n)
    else elim (node n).next [ none ↦ some nilobject | some n' ↦ search fuel is_key node n' ]

abbrev pub is_number : ℤ → TValue → Bool
is_number n (number m) = same_number m n
is_number n _ = false

abbrev pub is_string : ℕ → TValue → Bool
is_string p (string q _) = q == p
is_string p _ = false

-- No chain is longer than the number of nodes.
unfoldable pub luah_getnum : Table → ℤ → Option Place
luah_getnum t (pos (suc k)) =
    if ltb k (length t.array)
    then some (in_array k)
    else search (sizenode t) (is_number (pos (suc k))) t.node (hashnum t (pos (suc k)))
luah_getnum t key = search (sizenode t) (is_number key) t.node (hashnum t key)

unfoldable pub luah_getstr : Table → (ptr hash : ℕ) → Option Place
luah_getstr t p hash = search (sizenode t) (is_string p) t.node (hash % sizenode t)

-- `(int) n` is `n`: it fits 32 bits.
abbrev pub is_int : ℤ → Bool
is_int (pos n) = ltb n (2 ^ 31)
is_int (negsuc n) = ltb n (2 ^ 31)

unfoldable pub luah_get : Table → TValue → Option Place
luah_get t nil = some nilobject
luah_get t (string p hash) = luah_getstr t p hash
luah_get t (number n) =
    if is_int n
    then luah_getnum t n
    else search (sizenode t) (λ k. luao_rawequalobj k (number n)) t.node (hashnum t n)
luah_get t key = search (sizenode t) (λ k. luao_rawequalobj k key) t.node (mainposition t key)
