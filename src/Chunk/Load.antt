-- ===== src/Chunk/Load.antt =====
-- The functions of lib/lunatik/lundump.c. An error unwinds the stack: the load ends with it.
use lunatik_ng.Base.{
  ℕ, zero, suc, ◌*◌, ◌^◌, not, none, some, List, [], ◌∷◌, take, drop, leb, if◌then◌else◌, ◌==◌,
}
use lunatik_ng.Base.Bytes.{le_value}
use lunatik_ng.Zio.{Zio, luaz_read}
use lunatik_ng.Chunk.Verify.Symbexec.{luag_checkcode}
use lunatik_ng.Chunk.{
  Str, LocVar, Constant, k_nil, k_boolean, k_number, k_string, Fields, Proto, proto, Protos,
  no_more, next, luau_header, same_bytes,
}

pub data LoadError : Type 0 where
  unexpected_end : LoadError
  bad_integer : LoadError
  bad_constant : LoadError
  code_too_deep : LoadError
  bad_code : LoadError
  bad_header : LoadError

pub data Result (A : Type 0) : Type 0 where
  fail : LoadError → Result A
  ok : A → Zio → Result A

abbrev pub Load : Type 0 → Type 0
Load A = Zio → Result A

abbrev pub pure : {A : Type 0} → A → Load A
pure a z = ok a z

abbrev pub error : {A : Type 0} → LoadError → Load A
error e z = fail e

infixl 5 ◌>>=◌
abbrev pub ◌>>=◌ : {A B : Type 0} → Load A → (A → Load B) → Load B
◌>>=◌ m f z = elim (m z) [ fail e ↦ fail e | ok a z' ↦ f a z' ]

unfoldable pub load_block : ℕ → Load (List ℕ)
load_block size z =
    let (r, b, z') = luaz_read z size in if r == 0 then ok b z' else fail unexpected_end

abbrev pub load_var : ℕ → Load ℕ
load_var size = do b ← load_block size; pure (le_value b)

-- A `char`, by its byte: the callers compare it and store it as a byte.
abbrev pub load_char : Load ℕ
load_char = load_var 1

abbrev pub check_int : ℕ → Load ℕ
check_int x = if leb (2 ^ 31) x then error bad_integer else pure x

unfoldable pub load_int : Load ℕ
load_int = load_var 4 >>= check_int

abbrev pub load_number : Load ℕ
load_number = load_var 8

abbrev pub load_text : ℕ → Load Str
load_text zero = pure none
load_text (suc size) = do s ← load_block (suc size); pure (some (take size s))

unfoldable pub load_string : Load Str
load_string = load_var 8 >>= load_text

-- The 4-byte elements of a vector.
abbrev pub words : ℕ → List ℕ → List ℕ
words zero bs = []
words (suc n) bs = le_value (take 4 bs) ∷ words n (drop 4 bs)

unfoldable pub load_vector : Load (List ℕ)
load_vector = do n ← load_int; b ← load_block (n * 4); pure (words n b)

abbrev pub load_boolean : Load Constant
load_boolean = do x ← load_char; pure (k_boolean (not (x == 0)))

abbrev pub load_value : ℕ → Load Constant
load_value t =
    if t == 0
    then pure k_nil
    else if t == 1
    then load_boolean
    else if t == 3
    then (load_number >>= λ x. pure (k_number x))
    else if t == 4
    then (load_string >>= λ s. pure (k_string s))
    else error bad_constant

abbrev pub load_constant : Load Constant
load_constant = load_char >>= load_value

unfoldable pub load_each : {A : Type 0} → Load A → ℕ → Load (List A)
load_each load zero = pure []
load_each load (suc n) = load >>= λ x. load_each load n >>= λ xs. pure (x ∷ xs)

abbrev pub load_list : {A : Type 0} → Load A → Load (List A)
load_list load = load_int >>= load_each load

abbrev pub load_locvar : Load LocVar
load_locvar = do
  varname ← load_string
  startpc ← load_int
  endpc ← load_int
  pure (record { varname = varname; startpc = startpc; endpc = endpc })

abbrev pub load_debug : Load (List ℕ × List LocVar × List Str)
load_debug = do
  lineinfo ← load_vector
  locvars ← load_list load_locvar
  upvalues ← load_list load_string
  pure (lineinfo, locvars, upvalues)

abbrev pub or_parent : Str → Str → Str
or_parent none p = p
or_parent (some s) p = some s

-- What precedes the constants, with the vectors behind it still empty.
abbrev pub load_head : Str → Load Fields
load_head p = do
  source ← load_string
  linedefined ← load_int
  lastlinedefined ← load_int
  nups ← load_char
  numparams ← load_char
  is_vararg ← load_char
  maxstacksize ← load_char
  code ← load_vector
  pure (record {
    source = or_parent source p;
    linedefined = linedefined;
    lastlinedefined = lastlinedefined;
    nups = nups;
    numparams = numparams;
    is_vararg = is_vararg;
    maxstacksize = maxstacksize;
    code = code;
    k = [];
    lineinfo = [];
    locvars = [];
    upvalues = [];
  })

abbrev pub load_k : Fields → Load Fields
load_k f = do k ← load_list load_constant; pure (record f { k = k })

abbrev pub load_rest : Fields → Load Fields
load_rest f = do
  (lineinfo, locvars, upvalues) ← load_debug
  pure (record f { lineinfo = lineinfo; locvars = locvars; upvalues = upvalues })

unfoldable pub load_protos : Load Proto → ℕ → Load Protos
load_protos load zero = pure no_more
load_protos load (suc n) = load >>= λ f. load_protos load n >>= λ fs. pure (next f fs)

abbrev pub load_constants : Load Proto → Fields → Load (Fields × Protos)
load_constants load f = do g ← load_k f; n ← load_int; fs ← load_protos load n; pure (g, fs)

abbrev pub check_code : Proto → Load Proto
check_code f = if luag_checkcode f then pure f else error bad_code

-- `room` is LUAI_MAXCCALLS - nCcalls: how often the count of calls can still be raised.
unfoldable pub load_function : (room : ℕ) → Str → Load Proto
load_function zero p = error code_too_deep
load_function (suc room) p = do
  f ← load_head p
  (g, fs) ← load_constants (load_function room f.source) f
  h ← load_rest g
  check_code (proto h fs)

abbrev pub check_header : List ℕ → Load (Unit {0})
check_header h = if same_bytes luau_header h then pure tt else error bad_header

-- The name of a chunk whose main function has no source: "=?".
unfoldable pub luau_undump : (room : ℕ) → Load Proto
luau_undump room = do
  h ← load_block 12
  u ← check_header h
  load_function room (some (61 ∷ 63 ∷ []))
