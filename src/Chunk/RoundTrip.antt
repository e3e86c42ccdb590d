-- ===== src/Chunk/RoundTrip.antt =====
-- The chunk that ldump.c writes is the one that lundump.c reads.
use lunatik_ng.Base.{
  ℕ, zero, suc, ◌^◌, ◌<◌, ◌≡◌, sym, ap, ◌∙◌, Bool, true, none, some, List, [], ◌∷◌, ◌++◌,
  append_assoc, append-nil,
}
use lunatik_ng.Zio.{Zio}
use lunatik_ng.Zio.Stream.{contents, IsInSync}
use lunatik_ng.Chunk.{Str, Fields, Proto, proto, Protos, no_more, next, count, luau_header}
use lunatik_ng.Chunk.Dump.{
  flat, dump_function, dump_protos, dump_constants, dump_fields, dump_debug, dumped_source,
  unless_stripped, ◌▸◌, chunk_blocks, luau_dump, dump_blocks,
}
use lunatik_ng.Chunk.Verify.Symbexec.{luag_checkcode}
use lunatik_ng.Chunk.Load.{ok, load_protos, load_function, check_code, luau_undump, or_parent}
use lunatik_ng.Chunk.Reads.{Loads, Loads-bind, Loads-last, Loads-pure, load_block-Reads, Reads-same}
use lunatik_ng.Chunk.Constants.{
  IsFields, load_int-Loads, load_head-Loads, load_k-Loads, load_rest-Loads,
}

-- The source of a function that is loaded below one with the source `q`; it was dumped below one
-- with the source `p`.
abbrev pub loaded_source : Bool → Str → Str → Str → Str
loaded_source strip s p q = or_parent (dumped_source strip s p) q

abbrev pub loaded_fields : Bool → Fields → Str → Fields
loaded_fields strip f s = record f {
  source = s;
  lineinfo = unless_stripped strip f.lineinfo;
  locvars = unless_stripped strip f.locvars;
  upvalues = unless_stripped strip f.upvalues;
}

-- The function that a dump stands for.
unfoldable mutual
  pub loaded : Bool → (p q : Str) → Proto → Proto
  loaded strip p q (proto f fs) =
      let s = loaded_source strip f.source p q in
      proto (loaded_fields strip f s) (loaded_protos strip f.source s fs)

  pub loaded_protos : Bool → (p q : Str) → Protos → Protos
  loaded_protos strip p q no_more = no_more
  loaded_protos strip p q (next f fs) = next (loaded strip p q f) (loaded_protos strip p q fs)

-- The numbers and lengths have the widths of their types, and the functions are nested at most
-- `room` deep.
unfoldable mutual
  pub FitsIn : ℕ → Proto → Type 0
  FitsIn zero (proto f fs) = ⊥
  FitsIn (suc room) (proto f fs) = IsFields f × (count fs < 2 ^ 31) × AllFit room fs

  pub AllFit : ℕ → Protos → Type 0
  AllFit room no_more = Unit
  AllFit room (next f fs) = FitsIn room f × AllFit room fs

-- The name that the main function gets if it has no source.
abbrev pub no_source : Str
no_source = some (61 ∷ 63 ∷ [])

-- The verifier accepts a function and all inner ones.
unfoldable mutual
  pub Passes : Proto → Type 0
  Passes (proto f fs) = (luag_checkcode (proto f fs) ≡ true) × AllPass fs

  pub AllPass : Protos → Type 0
  AllPass no_more = Unit
  AllPass (next f fs) = Passes f × AllPass fs

abbrev head : Bool → (f : Fields) → (p q : Str) → Fields
head strip f p q = record f {
  source = loaded_source strip f.source p q;
  k = [];
  lineinfo = [];
  locvars = [];
  upvalues = [];
}

check-Loads : (f : Proto) → luag_checkcode f ≡ true → Loads (check_code f) [] f
check-Loads f accepted = rw (accepted) (Loads-pure f)

-- A function with the inner functions `fs`, which `load` reads.
body-Loads :
    (strip : Bool) (f : Fields) (fs gs : Protos) (p q : Str) (room : ℕ) (inner : List (List ℕ))
    → let s = loaded_source strip f.source p q in
      IsFields f
      → count fs < 2 ^ 31
      → luag_checkcode (proto (loaded_fields strip f s) gs) ≡ true
      → Loads (load_protos (load_function room s) (count fs)) inner gs
      → Loads
          (load_function (suc room) q)
          (dump_fields strip f p ▸ dump_constants f fs inner ▸ dump_debug strip f)
          (proto (loaded_fields strip f s) gs)
unfolding load_function
body-Loads strip f fs gs p q room inner h few accepted rest =
    let (source, line, last, nups, params, vararg, stack, code, ks, lines, vars, ups) = h in
    Loads-bind _ (load_head-Loads strip f p q h) (
      Loads-bind _
        (Loads-bind _ (load_k-Loads f (head strip f p q) ks)
          (Loads-bind _ (load_int-Loads (count fs) few) (Loads-last _ rest (Loads-pure _))))
        (Loads-last _
          (load_rest-Loads strip f (record (head strip f p q) { k = f.k }) lines vars ups)
          (check-Loads _ accepted)))

none-Loads : (room : ℕ) (q : Str) → Loads (load_protos (load_function room q) 0) [] no_more
unfolding load_protos
none-Loads room q = Loads-pure no_more

next-Loads :
    {f : Proto} {fs : Protos} {xs ys : List (List ℕ)} (room n : ℕ) (q : Str)
    → Loads (load_function room q) xs f
    → Loads (load_protos (load_function room q) n) ys fs
    → Loads (load_protos (load_function room q) (suc n)) (xs ++ ys) (next f fs)
unfolding load_protos
next-Loads room n q first others = Loads-bind _ first (Loads-last _ others (Loads-pure _))

mutual
  unfolding dump_function loaded FitsIn Passes

  function-Loads :
      (f : Proto) (strip : Bool) (p q : Str) (room : ℕ)
      → FitsIn room f
      → Passes (loaded strip p q f)
      → Loads (load_function room q) (dump_function strip f p) (loaded strip p q f)
  function-Loads (proto f fs) strip p q zero fits pass = elim fits [ ]
  function-Loads (proto f fs) strip p q (suc room) (h, few, fit) (accepted, pass) =
      body-Loads strip f fs (loaded_protos strip f.source (loaded_source strip f.source p q) fs) p q
        room (dump_protos strip fs f.source) h few accepted
        (protos-Loads fs strip f.source (loaded_source strip f.source p q) room fit pass)

  protos-Loads :
      (fs : Protos) (strip : Bool) (p q : Str) (room : ℕ)
      → AllFit room fs
      → AllPass (loaded_protos strip p q fs)
      → Loads
          (load_protos (load_function room q) (count fs))
          (dump_protos strip fs p)
          (loaded_protos strip p q fs)
  protos-Loads no_more strip p q room fit pass = none-Loads room q
  protos-Loads (next f fs) strip p q room (fit, fits) (pass, passes) =
      next-Loads room (count fs) q (function-Loads f strip p q room fit pass)
        (protos-Loads fs strip p q room fits passes)

undump-Loads :
    (f : Proto) (strip : Bool) (room : ℕ)
    → FitsIn room f
    → Passes (loaded strip none no_source f)
    → Loads (luau_undump room) (chunk_blocks f strip) (loaded strip none no_source f)
unfolding luau_undump
undump-Loads f strip room fits passes =
    Loads-bind _ {xs = luau_header ∷ []}
      (record {
        reads =
            Reads-same _ luau_header _ luau_header (sym (append-nil luau_header))
              (load_block-Reads luau_header);
      })
      (Loads-bind (λ _. load_function room no_source) {xs = []} {a = tt} (Loads-pure tt)
        (function-Loads f strip none no_source room fits passes))

-- A writer that keeps all that it is given.
abbrev pub collect : List ℕ → List ℕ → ℕ × List ℕ
collect b bytes = (0, bytes ++ b)

collect_blocks :
    (blocks : List (List ℕ)) (bytes : List ℕ)
    → dump_blocks collect blocks (0, bytes) ≡ (0, bytes ++ flat blocks)
unfolding dump_blocks
collect_blocks [] bytes = ap (λ bs. (0, bs)) (sym (append-nil bytes))
collect_blocks (b ∷ bs) bytes =
    collect_blocks bs (bytes ++ b) ∙ ap (λ bs. (0, bs)) (append_assoc bytes b (flat bs))

-- Where `luau_dump` has written a function, stripped or not, to a writer that keeps what it is
-- given, `luau_undump` reads from a stream that starts with these bytes the function that the dump
-- stands for, and leaves the bytes behind them. The numbers and lengths of the function have the
-- widths of their types, its functions are nested at most `room` deep, and the verifier of bytecode
-- accepts them all.
pub luau_undump-luau_dump :
    (f : Proto) (strip : Bool) (room : ℕ) (z : Zio) (rest : List ℕ)
    → FitsIn room f
    → Passes (loaded strip none no_source f)
    → IsInSync z
    → contents z ≡ (luau_dump f collect [] strip).1 ++ rest
    → (z' : Zio) × (luau_undump room z ≡ ok (loaded strip none no_source f) z')
      × (contents z' ≡ rest)
      × IsInSync z'
unfolding luau_dump
luau_undump-luau_dump f strip room z rest fits passes sync e =
    (undump-Loads f strip room fits passes).reads z rest sync
      (e ∙ ap (λ r. r.1 ++ rest) (collect_blocks (chunk_blocks f strip) []))
