-- ===== src/Chunk/Opcodes/Examples.antt =====
-- An instruction of lib/lunatik/lopcodes.h.
use lunatik_ng.Base.{◌≡◌, ◌^◌, ◌+◌, ◌*◌, refl}
use lunatik_ng.Chunk.Opcodes.Create.{create_abc}

-- `OP_ADD 1 2 259`.
added : create_abc 12 1 2 259 ≡ 12 + 64 + 259 * 2 ^ 14 + 2 * 2 ^ 23
unfolding create_abc
added = refl
