-- ===== src/Table/Insert.antt =====
-- The insertion of a key into the hash part of a table, `newkey` of lib/lunatik/ltable.c with
-- `getfreepos`.
pub mod Chains
pub mod Moved
pub mod Finds
pub mod Keeps
pub mod Lookup
use lunatik_ng.Base.{
  ℕ, zero, suc, Bool, true, false, not, ◌||◌, Option, none, some, ◌==◌, if◌then◌else◌,
}
use lunatik_ng.Kernel.{update}
use lunatik_ng.Table.{TValue, nil, is_nil, Node, Table, sizenode, mainposition}

-- The loop of `getfreepos`: the last node before `lastfree` without a key.
unfoldable pub free_before : (lastfree : ℕ) → (ℕ → Node) → Option ℕ
free_before zero node = none
free_before (suc n) node =
    let rest = free_before n node in if is_nil (node n).i_key then some n else rest

-- What `lastfree` is after a search without success does not matter: the table is rehashed then.
unfoldable pub getfreepos : Table → Option ℕ × Table
getfreepos t = elim (free_before t.lastfree t.node) [
  | none ↦ (none, record t { lastfree = 0 })
  | some n ↦ (some n, record t { lastfree = n })
]

-- The loop that finds the node before `mp` in a chain. none is a chain that ends before, or that does
-- not end within the fuel.
unfoldable pub previous : (fuel : ℕ) → (ℕ → Node) → (mp othern : ℕ) → Option ℕ
previous zero node mp othern = none
previous (suc fuel) node mp othern = elim (node othern).next [
  | none ↦ none
  | some n ↦ let rest = previous fuel node mp n in if n == mp then some othern else rest
]

-- The new key in its main position, which is free.
abbrev pub put_key : (ℕ → Node) → (mp : ℕ) → TValue → ℕ → Node
put_key node mp key = update node mp (record (node mp) { i_key = key })

-- The new key in the free position `n`, chained behind the colliding node.
abbrev pub put_behind : (ℕ → Node) → (mp n : ℕ) → TValue → ℕ → Node
put_behind node mp n key =
    update (update node n (record (node n) { i_key = key; next = (node mp).next })) mp
      (record (node mp) { next = some n })

-- The colliding node moved into the free position, the new key in its place.
abbrev pub move_away : (ℕ → Node) → (othern mp n : ℕ) → TValue → ℕ → Node
move_away node othern mp n key =
    update (update (update node othern (record (node othern) { next = some n })) n (node mp)) mp
      (record { i_val = nil; i_key = key; next = none })

-- The table with the key and the node it is in, a table without a free place, which `rehash` is to
-- grow, or a chain without the colliding node.
pub data Inserted : Type 0 where
  placed : Table → ℕ → Inserted
  full : Table → Inserted
  broken : Inserted

-- With a free place `n` for the main position `mp`, which is taken.
unfoldable pub collide : Table → (mp n : ℕ) → TValue → Inserted
collide t mp n key =
    let othern = mainposition t (t.node mp).i_key in
    if othern == mp
    then placed (record t { node = put_behind t.node mp n key }) n
    else elim (previous (sizenode t) t.node mp othern) [
      | none ↦ broken
      | some before ↦ placed (record t { node = move_away t.node before mp n key }) mp
    ]

-- Behind `getfreepos`.
abbrev pub with_free : (mp : ℕ) → TValue → Option ℕ × Table → Inserted
with_free mp key (none, t) = full t
with_free mp key (some n, t) = collide t mp n key

unfoldable pub newkey : Table → TValue → Inserted
newkey t key =
    let mp = mainposition t key in
    if not (is_nil (t.node mp).i_val) || t.dummy
    then with_free mp key (getfreepos t)
    else placed (record t { node = put_key t.node mp key }) mp
