-- ===== src/Chunk/Examples.antt =====
-- Runs of the dump and the load of chunks, and their theorems at concrete functions.
use lunatik_ng.Base.{
  ℕ, ◌+◌, ◌*◌, ◌^◌, ◌≡◌, ◌≢◌, refl, Bool, true, false, none, some, List, [], ◌∷◌, ◌++◌, leb,
  if◌then◌else◌, length, take, drop, arith,
}
use lunatik_ng.Zio.{Zio, luaz_init}
use lunatik_ng.Zio.Stream.{contents, IsInSync}
use lunatik_ng.Chunk.{Fields, Proto, proto, no_more, next, k_nil, k_boolean, k_number, k_string}
use lunatik_ng.Chunk.Dump.{luau_dump, chunk_blocks, dump_function, dump_blocks, dump_block}
use lunatik_ng.Chunk.Load.{ok, fail, luau_undump, unexpected_end}
use lunatik_ng.Chunk.Opcodes.{get_opcode, luap_opmodes}
use lunatik_ng.Chunk.Verify.{check, when, precheck, ◌>>=◌, fault}
use lunatik_ng.Chunk.Verify.Symbexec.{
  luag_checkcode, symbexec, symbexec_loop, decoded, round_of, effect, check_pseudo,
}
use lunatik_ng.Chunk.Verify.Rounds.{symbexec-ne-fault}
use lunatik_ng.Chunk.RoundTrip.{loaded, FitsIn, Passes, no_source, collect, luau_undump-luau_dump}
use lunatik_ng.Chunk.Unstripped.{HasSource}
use lunatik_ng.Chunk.Header.{luau_undump-header}
use lunatik_ng.Chunk.Writer.{Fed, luau_dump-Fed}

abbrev fields : Fields
fields = record {
  source = some (61 ∷ 102 ∷ []);
  linedefined = 1;
  lastlinedefined = 3;
  nups = 1;
  numparams = 0;
  is_vararg = 2;
  maxstacksize = 4;
  code = 30 ∷ [];
  k = k_nil ∷ k_boolean true ∷ k_number 7 ∷ k_string (some (97 ∷ [])) ∷ [];
  lineinfo = 2 ∷ [];
  locvars = record { varname = some (98 ∷ []); startpc = 0; endpc = 1 } ∷ [];
  upvalues = some (99 ∷ []) ∷ [];
}

-- A main function that makes a closure of an inner one, with an upvalue, and returns.
abbrev main : Proto
main =
    proto (record fields { code = 36 ∷ 0 ∷ 30 ∷ []; lineinfo = 2 ∷ 2 ∷ 3 ∷ [] })
      (next (proto fields no_more) no_more)

abbrev bytes_of : Bool → List ℕ
bytes_of strip = (luau_dump main collect [] strip).1

-- The reader gives the bytes in two blocks.
abbrev stream_of : Bool → Zio
stream_of strip = luaz_init (take 20 (bytes_of strip) ∷ drop 20 (bytes_of strip) ∷ [])

main-FitsIn : FitsIn 2 main
unfolding FitsIn
main-FitsIn = omega arith

main-Passes : (strip : Bool) → Passes (loaded strip none no_source main)
unfolding Passes loaded luag_checkcode symbexec symbexec_loop precheck decoded round_of effect
    get_opcode luap_opmodes check when ◌>>=◌ check_pseudo
main-Passes true = (refl, ((refl, tt), tt))
main-Passes false = (refl, ((refl, tt), tt))

luau_undump-luau_dump_example :
    (z' : Zio) × (luau_undump 2 (stream_of true) ≡ ok (loaded true none no_source main) z')
    × (contents z' ≡ [])
    × IsInSync z'
unfolding luau_dump dump_blocks dump_function
luau_undump-luau_dump_example =
    luau_undump-luau_dump main true 2 (stream_of true) [] main-FitsIn (main-Passes true) refl refl

main-HasSource : HasSource main
unfolding HasSource
main-HasSource = (tt, ((tt, tt), tt))

main_itself-Passes : Passes main
unfolding Passes luag_checkcode symbexec symbexec_loop precheck decoded round_of effect get_opcode
    luap_opmodes check when ◌>>=◌ check_pseudo
main_itself-Passes = (refl, ((refl, tt), tt))

luau_undump-header_example : luau_undump 2 (luaz_init ((27 ∷ 76 ∷ []) ∷ [])) ≡ fail unexpected_end
luau_undump-header_example =
    (luau_undump-header 2 (luaz_init ((27 ∷ 76 ∷ []) ∷ [])) refl).0 (omega arith)

-- It refuses the block that would fill it beyond twenty bytes.
abbrev small : List ℕ → List ℕ → ℕ × List ℕ
small b bytes = if leb (length (bytes ++ b)) 20 then (0, bytes ++ b) else (1, bytes)

luau_dump-Fed_example : Fed small (chunk_blocks main true) [] (luau_dump main small [] true)
luau_dump-Fed_example = luau_dump-Fed small main [] true

dump_refused : (luau_dump main small [] true).0 ≡ 1
unfolding luau_dump dump_blocks dump_block dump_function
dump_refused = refl

symbexec-ne-fault_example : symbexec fields no_more 1 2 ≢ fault
symbexec-ne-fault_example = symbexec-ne-fault fields no_more 1 2 (omega arith)

-- A jump behind the end is refused.
jump_refused :
    luag_checkcode
      (proto (record fields { code = (22 + 2 ^ 14 * 131073) ∷ 30 ∷ []; lineinfo = [] }) no_more)
    ≡ false
unfolding luag_checkcode symbexec symbexec_loop precheck decoded round_of effect get_opcode
    luap_opmodes check when ◌>>=◌ check_pseudo
jump_refused = refl
