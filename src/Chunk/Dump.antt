-- ===== src/Chunk/Dump.antt =====
-- The functions of lib/lunatik/ldump.c: each gives the blocks that it hands to `DumpBlock`, in order.
use lunatik_ng.Base.{
  ℕ, ◌+◌, Bool, none, some, List, [], ◌∷◌, ◌++◌, length, if◌then◌else◌, ◌||◌, ◌==◌,
}
use lunatik_ng.Base.Bytes.{le_bytes}
use lunatik_ng.Chunk.{
  Str, LocVar, Constant, k_nil, k_boolean, k_number, k_string, Fields, Proto, proto, Protos,
  no_more, next, count, luau_header, same_str,
}

abbrev pub flat : List (List ℕ) → List ℕ
flat [] = []
flat (b ∷ bs) = b ++ flat bs

-- `status` and `data` of a `DumpState`; `writer` may do anything with its data.
module _ {D : Type 0} (writer : List ℕ → D → ℕ × D) where
  unfoldable pub dump_block : List ℕ → ℕ × D → ℕ × D
  dump_block b (status, d) = if status == 0 then writer b d else (status, d)

  unfoldable pub dump_blocks : List (List ℕ) → ℕ × D → ℕ × D
  unfolding dump_block
  dump_blocks [] s = s
  dump_blocks (b ∷ bs) s = dump_blocks bs (dump_block b s)

-- One dump after another.
infixr 60 ◌▸◌
abbrev pub ◌▸◌ : List (List ℕ) → List (List ℕ) → List (List ℕ)
◌▸◌ xs ys = xs ++ ys

abbrev pub dump_char : ℕ → List (List ℕ)
dump_char y = le_bytes 1 y ∷ []

abbrev pub dump_int : ℕ → List (List ℕ)
dump_int x = le_bytes 4 x ∷ []

abbrev pub dump_number : ℕ → List (List ℕ)
dump_number x = le_bytes 8 x ∷ []

-- The bytes of a vector of 4-byte words.
abbrev pub word_bytes : List ℕ → List ℕ
word_bytes [] = []
word_bytes (x ∷ xs) = le_bytes 4 x ++ word_bytes xs

-- `DumpVector` of 4-byte elements, the only ones it is called for.
abbrev pub dump_vector : List ℕ → List (List ℕ)
dump_vector xs = dump_int (length xs) ▸ (word_bytes xs ∷ [])

abbrev pub dump_string : Str → List (List ℕ)
dump_string none = le_bytes 8 0 ∷ []
dump_string (some s) = le_bytes 8 (length s + 1) ∷ (s ++ 0 ∷ []) ∷ []

abbrev pub dump_constant : Constant → List (List ℕ)
dump_constant k_nil = dump_char 0
dump_constant (k_boolean b) = dump_char 1 ▸ dump_char (if b then 1 else 0)
dump_constant (k_number x) = dump_char 3 ▸ dump_number x
dump_constant (k_string s) = dump_char 4 ▸ dump_string s

abbrev pub dump_each {ℓ} : {A : Type ℓ} → (A → List (List ℕ)) → List A → List (List ℕ)
dump_each dump [] = []
dump_each dump (x ∷ xs) = dump x ▸ dump_each dump xs

abbrev pub dump_list {ℓ} : {A : Type ℓ} → (A → List (List ℕ)) → List A → List (List ℕ)
dump_list dump xs = dump_int (length xs) ▸ dump_each dump xs

abbrev pub dump_locvar : LocVar → List (List ℕ)
dump_locvar v = dump_string v.varname ▸ dump_int v.startpc ▸ dump_int v.endpc

-- What `DumpDebug` takes for the size 0.
abbrev pub unless_stripped {ℓ} : {A : Type ℓ} → Bool → List A → List A
unless_stripped strip xs = if strip then [] else xs

abbrev pub dump_debug : Bool → Fields → List (List ℕ)
dump_debug strip f =
    dump_vector (unless_stripped strip f.lineinfo)
    ▸ dump_list dump_locvar (unless_stripped strip f.locvars)
    ▸ dump_list dump_string (unless_stripped strip f.upvalues)

abbrev pub dumped_source : Bool → Str → Str → Str
dumped_source strip source p = if same_str source p || strip then none else source

-- The first half of `DumpConstants`.
abbrev pub dump_k : Fields → List (List ℕ)
dump_k f = dump_list dump_constant f.k

abbrev pub dump_fields : Bool → Fields → Str → List (List ℕ)
dump_fields strip f p =
    dump_string (dumped_source strip f.source p)
    ▸ dump_int f.linedefined
    ▸ dump_int f.lastlinedefined
    ▸ dump_char f.nups
    ▸ dump_char f.numparams
    ▸ dump_char f.is_vararg
    ▸ dump_char f.maxstacksize
    ▸ dump_vector f.code

-- `DumpConstants`, with the blocks of the inner functions.
abbrev pub dump_constants : Fields → Protos → List (List ℕ) → List (List ℕ)
dump_constants f fs inner = dump_k f ▸ dump_int (count fs) ▸ inner

unfoldable mutual
  pub dump_function : Bool → Proto → Str → List (List ℕ)
  dump_function strip (proto f fs) p =
      dump_fields strip f p
      ▸ dump_constants f fs (dump_protos strip fs f.source)
      ▸ dump_debug strip f

  pub dump_protos : Bool → Protos → Str → List (List ℕ)
  dump_protos strip no_more source = []
  dump_protos strip (next f fs) source = dump_function strip f source ▸ dump_protos strip fs source

abbrev pub chunk_blocks : Proto → Bool → List (List ℕ)
chunk_blocks f strip = luau_header ∷ dump_function strip f none

unfoldable pub luau_dump : {D : Type 0} → Proto → (List ℕ → D → ℕ × D) → D → Bool → ℕ × D
luau_dump f writer d strip = dump_blocks writer (chunk_blocks f strip) (0, d)
