-- ===== src/Strings.antt =====
-- The table of all strings of lib/lunatik/lstring.c, which has each string once.
pub mod Chains
pub mod Interned
mod Examples
use lunatik_ng.Base.{
  ℕ, zero, suc, ◌+◌, ◌-◌, ◌*◌, ◌/◌, ◌%◌, ◌^◌, Bool, true, false, ◌&&◌, Option, none, some, List, [],
  ◌∷◌, ◌==◌, ltb, leb, length, get_or, if◌then◌else◌,
}
use Prim.Native.Nat.{bit_xor}
use lunatik_ng.Kernel.{update}

-- A string at its address. Its length is that of its bytes.
pub record TString : Type 0 where
  pub at : ℕ
  pub str : List ℕ
  pub hash : ℕ

-- `hash` has the chain of each of the 2 ^ lsize buckets. `next` is the next address that the allocator
-- gives. `dead` says which strings the collector has found to be garbage, and `sweeping` that it is
-- in the state GCSsweepstring.
pub record StringTable : Type 0 where
  pub hash : ℕ → List TString
  pub lsize : ℕ
  pub nuse : ℕ
  pub next : ℕ
  pub dead : ℕ → Bool
  pub sweeping : Bool

abbrev pub buckets : StringTable → ℕ
buckets tb = 2 ^ tb.lsize

-- `h ^ ((h<<5)+(h>>2)+c)` on an `unsigned int`.
abbrev mix : (h c : ℕ) → ℕ
mix h c = bit_xor h ((h * 32 + h / 4 + c) % 2 ^ 32)

-- The loop, which takes off `step` bytes in each round.
hash_loop : (fuel step l1 : ℕ) → List ℕ → (h : ℕ) → ℕ
hash_loop zero step l1 str h = h
hash_loop (suc fuel) step l1 str h =
    let rest = hash_loop fuel step (l1 - step) str (mix h (get_or str (l1 - 1) 0)) in
    if leb step l1 then rest else h

-- `step` is at least 1, so that there are no more rounds than bytes.
unfoldable pub hash_of : List ℕ → ℕ
unfolding hash_loop
hash_of str = let l = length str in hash_loop l (l / 32 + 1) l str (l % 2 ^ 32)

-- The nodes of a chain, each to the head of the chain of its new bucket.
unfoldable pub relink : (newsize : ℕ) → List TString → (ℕ → List TString) → ℕ → List TString
relink newsize [] newhash = newhash
relink newsize (p ∷ ps) newhash =
    relink newsize ps (update newhash (p.hash % newsize) (p ∷ newhash (p.hash % newsize)))

-- The first `n` chains.
unfoldable pub rehash : (n newsize : ℕ) → (ℕ → List TString) → ℕ → List TString
rehash zero newsize hash = λ i. []
rehash (suc n) newsize hash = relink newsize (hash n) (rehash n newsize hash)

-- The new size is 2 ^ lnewsize.
unfoldable pub luas_resize : StringTable → (lnewsize : ℕ) → StringTable
luas_resize tb lnewsize =
    if tb.sweeping
    then tb
    else record tb { hash = rehash (buckets tb) (2 ^ lnewsize) tb.hash; lsize = lnewsize }

-- The new string is put at the head of the chain of its bucket.
unfoldable pub chain : StringTable → TString → StringTable
chain tb ts = record tb {
  hash = update tb.hash (ts.hash % buckets tb) (ts ∷ tb.hash (ts.hash % buckets tb));
  nuse = tb.nuse + 1;
  next = tb.next + 1;
  dead = update tb.dead ts.at false;
}

-- The table grows if there are more strings than buckets.
unfoldable pub crowd : StringTable → StringTable
crowd tb =
    if ltb (buckets tb) tb.nuse && leb (buckets tb) ((2 ^ 31 - 3) / 2)
    then luas_resize tb (tb.lsize + 1)
    else tb

-- `none` is the error of luaM_toobig. MAX_SIZET is 2 ^ 64 - 3 and sizeof(TString) is 24.
unfoldable pub newlstr : StringTable → List ℕ → (h : ℕ) → Option (ℕ × StringTable)
newlstr tb str h =
    if ltb (2 ^ 64 - 27) ((length str + 1) % 2 ^ 64)
    then none
    else some (tb.next, crowd (chain tb (record { at = tb.next; str = str; hash = h })))

-- `ts->tsv.len == l && memcmp(str, getstr(ts), l) == 0`
abbrev pub same_string : List ℕ → List ℕ → Bool
same_string [] [] = true
same_string (x ∷ xs) (y ∷ ys) = x == y && same_string xs ys
same_string _ _ = false

-- The first string of a chain with these bytes.
unfoldable pub find : List ℕ → List TString → Option ℕ
find str [] = none
find str (ts ∷ rest) = if same_string ts.str str then some ts.at else find str rest

-- The address of the string with these bytes. One that is dead is not dead any more.
unfoldable pub luas_newlstr : StringTable → List ℕ → Option (ℕ × StringTable)
luas_newlstr tb str = elim (find str (tb.hash (hash_of str % buckets tb))) [
  | some p ↦ some (p, record tb { dead = update tb.dead p false })
  | none ↦ newlstr tb str (hash_of str)
]
