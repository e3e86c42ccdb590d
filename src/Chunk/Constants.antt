-- ===== src/Chunk/Constants.antt =====
-- What the parts of a function must satisfy for ldump.c and lundump.c to agree on them, and the loads
-- of these parts.
use lunatik_ng.Base.{
  ℕ, ◌^◌, ◌<◌, Bool, true, false, List, [], length, All, arith, Bool-cases, inl, inr, ◌||◌,
}
use lunatik_ng.Chunk.{LocVar, Constant, k_nil, k_boolean, k_number, k_string, Fields, Str, same_str}
use lunatik_ng.Chunk.Dump.{
  dump_constant, dump_locvar, dump_char, dump_int, dump_number, dump_string, dump_list, dump_k,
  dump_vector, dump_fields, dumped_source, unless_stripped, dump_debug,
}
use lunatik_ng.Chunk.Load.{
  load_constant, load_locvar, load_k, load_rest, load_int, load_char, load_string, Load, load_list,
  load_vector, load_head, or_parent, load_number,
}
use lunatik_ng.Chunk.Reads.{
  Loads, Loads-bind, Loads-last, Loads-pure, load_char-Reads, load_int-Reads, load_number-Reads,
}
use lunatik_ng.Chunk.Reads.Vectors.{
  IsStr, AreWords, load_string-Reads, load_vector-Reads, load_list-Reads,
}

abbrev pub IsConstant : Constant → Type 0
IsConstant k_nil = Unit
IsConstant (k_boolean b) = Unit
IsConstant (k_number x) = x < 2 ^ 64
IsConstant (k_string s) = IsStr s

abbrev pub IsLocVar : LocVar → Type 0
IsLocVar v = IsStr v.varname × (v.startpc < 2 ^ 31) × (v.endpc < 2 ^ 31)

pub load_char-Loads : (n : ℕ) → n < 256 → Loads load_char (dump_char n) n
load_char-Loads n h = record { reads = load_char-Reads n h }

pub load_int-Loads : (n : ℕ) → n < 2 ^ 31 → Loads load_int (dump_int n) n
load_int-Loads n h = record { reads = load_int-Reads n h }

load_number-Loads : (n : ℕ) → n < 2 ^ 64 → Loads load_number (dump_number n) n
load_number-Loads n h = record { reads = load_number-Reads n h }

pub load_string-Loads : (s : Str) → IsStr s → Loads load_string (dump_string s) s
load_string-Loads s h = record { reads = load_string-Reads s h }

load_constant-Loads : (c : Constant) → IsConstant c → Loads load_constant (dump_constant c) c
load_constant-Loads k_nil h = Loads-last _ (load_char-Loads 0 (omega arith)) (Loads-pure k_nil)
load_constant-Loads (k_boolean true) h =
    Loads-bind _ (load_char-Loads 1 (omega arith))
      (Loads-last _ (load_char-Loads 1 (omega arith)) (Loads-pure (k_boolean true)))
load_constant-Loads (k_boolean false) h =
    Loads-bind _ (load_char-Loads 1 (omega arith))
      (Loads-last _ (load_char-Loads 0 (omega arith)) (Loads-pure (k_boolean false)))
load_constant-Loads (k_number x) h =
    Loads-bind _ (load_char-Loads 3 (omega arith))
      (Loads-last _ (load_number-Loads x h) (Loads-pure (k_number x)))
load_constant-Loads (k_string s) h =
    Loads-bind _ (load_char-Loads 4 (omega arith))
      (Loads-last _ (load_string-Loads s h) (Loads-pure (k_string s)))

load_locvar-Loads : (v : LocVar) → IsLocVar v → Loads load_locvar (dump_locvar v) v
load_locvar-Loads v (name, start, end) = Loads-bind _ (load_string-Loads v.varname name) (
    Loads-bind _ (load_int-Loads v.startpc start)
      (Loads-last _ (load_int-Loads v.endpc end) (Loads-pure v)))

pub load_vector-Loads : (xs : List ℕ) → AreWords xs → Loads load_vector (dump_vector xs) xs
load_vector-Loads xs h = record { reads = load_vector-Reads xs h }

-- A list whose elements satisfy `P`, with a length that fits an `int`.
abbrev IsVector {ℓ} : {A : Type ℓ} → (A → Type 0) → List A → Type 0
IsVector P xs = All P xs × (length xs < 2 ^ 31)

load_list-Loads :
    {A : Type 0} (load : Load A) (dump : A → List (List ℕ)) (P : A → Type 0)
    → ((a : A) → P a → Loads load (dump a) a)
    → (xs : List A) → IsVector P xs
    → Loads (load_list load) (dump_list dump xs) xs
load_list-Loads load dump P element xs (h, few) = record {
  reads = load_list-Reads load dump P (λ a p. (element a p).reads) xs h few;
}

abbrev pub IsFields : Fields → Type 0
IsFields f =
    IsStr f.source
    × (f.linedefined < 2 ^ 31)
    × (f.lastlinedefined < 2 ^ 31)
    × (f.nups < 256)
    × (f.numparams < 256)
    × (f.is_vararg < 256)
    × (f.maxstacksize < 256)
    × AreWords f.code
    × IsVector IsConstant f.k
    × AreWords f.lineinfo
    × IsVector IsLocVar f.locvars
    × IsVector IsStr f.upvalues

pub load_k-Loads :
    (f g : Fields) → IsVector IsConstant f.k → Loads (load_k g) (dump_k f) (record g { k = f.k })
load_k-Loads f g h =
    Loads-last _ (load_list-Loads load_constant dump_constant IsConstant load_constant-Loads f.k h)
      (Loads-pure _)

stripped-IsVector :
    {A : Type 0} (P : A → Type 0) (strip : Bool) (xs : List A)
    → IsVector P xs
    → IsVector P (unless_stripped strip xs)
stripped-IsVector P true xs h = (tt, omega arith)
stripped-IsVector P false xs h = h

pub load_rest-Loads :
    (strip : Bool) (f g : Fields)
    → AreWords f.lineinfo
    → IsVector IsLocVar f.locvars
    → IsVector IsStr f.upvalues
    → Loads (load_rest g) (dump_debug strip f) (record g {
      lineinfo = unless_stripped strip f.lineinfo;
      locvars = unless_stripped strip f.locvars;
      upvalues = unless_stripped strip f.upvalues;
    })
load_rest-Loads strip f g lines vars ups =
    Loads-last _
      (Loads-bind _
        (load_vector-Loads (unless_stripped strip f.lineinfo)
          (stripped-IsVector _ strip f.lineinfo lines))
        (Loads-bind _
          (load_list-Loads load_locvar dump_locvar IsLocVar load_locvar-Loads
            (unless_stripped strip f.locvars) (stripped-IsVector IsLocVar strip f.locvars vars))
          (Loads-last _
            (load_list-Loads load_string dump_string IsStr load_string-Loads
              (unless_stripped strip f.upvalues) (stripped-IsVector IsStr strip f.upvalues ups))
            (Loads-pure _))))
      (Loads-pure _)

dumped_source-IsStr : (strip : Bool) (s p : Str) → IsStr s → IsStr (dumped_source strip s p)
dumped_source-IsStr strip s p h = elim (Bool-cases (same_str s p || strip)) [
  | inl e ↦ rw (e) tt
  | inr e ↦ rw (e) h
]

pub load_head-Loads :
    (strip : Bool) (f : Fields) (p q : Str)
    → IsFields f
    → Loads (load_head q) (dump_fields strip f p) (record f {
      source = or_parent (dumped_source strip f.source p) q;
      k = [];
      lineinfo = [];
      locvars = [];
      upvalues = [];
    })
load_head-Loads strip f p q
      (source, line, last, nups, params, vararg, stack, code, ks, lines, vars, ups) =
    Loads-bind _
      (load_string-Loads (dumped_source strip f.source p)
        (dumped_source-IsStr strip f.source p source))
      (Loads-bind _ (load_int-Loads f.linedefined line) (
        Loads-bind _ (load_int-Loads f.lastlinedefined last) (
          Loads-bind _ (load_char-Loads f.nups nups) (
            Loads-bind _ (load_char-Loads f.numparams params) (
              Loads-bind _ (load_char-Loads f.is_vararg vararg) (
                Loads-bind _ (load_char-Loads f.maxstacksize stack)
                  (Loads-last _ (load_vector-Loads f.code code) (Loads-pure _))))))))
