-- ===== src/Chunk/Writer.antt =====
-- How `luaU_dump` of lib/lunatik/ldump.c calls the writer.
use lunatik_ng.Base.{ℕ, zero, suc, ◌≡◌, refl, Bool, List, [], ◌∷◌, ap, ◌∙◌, arith}
use lunatik_ng.Chunk.{Proto}
use lunatik_ng.Chunk.Dump.{dump_block, dump_blocks, luau_dump, chunk_blocks}

-- A writer takes blocks in order up to the first that it refuses by a status other than 0.
module _ {D : Type 0} (writer : List ℕ → D → ℕ × D) where
  pub data Fed : List (List ℕ) → D → ℕ × D → Type 0 where
    all_taken : {d : D} → Fed [] d (0, d)
    taken :
        {b : List ℕ} {bs : List (List ℕ)} {d d' : D} {r : ℕ × D}
        → writer b d ≡ (0, d')
        → Fed bs d' r
        → Fed (b ∷ bs) d r
    refused :
        {b : List ℕ} {bs : List (List ℕ)} {d d' : D} {e : ℕ}
        → writer b d ≡ (suc e, d')
        → Fed (b ∷ bs) d (suc e, d')

  closed_block : (b : List ℕ) (e : ℕ) (d : D) → dump_block writer b (suc e, d) ≡ (suc e, d)
  unfolding dump_block
  closed_block b e d = ground arith

  closed_blocks :
      (bs : List (List ℕ)) (e : ℕ) (d : D) → dump_blocks writer bs (suc e, d) ≡ (suc e, d)
  unfolding dump_blocks
  closed_blocks [] e d = refl
  closed_blocks (b ∷ bs) e d =
      ap (dump_blocks writer bs) (closed_block b e d) ∙ closed_blocks bs e d

  after-Fed :
      (b : List ℕ) (bs : List (List ℕ)) (d : D) (r : ℕ × D)
      → writer b d ≡ r
      → ((d : D) → Fed bs d (dump_blocks writer bs (0, d)))
      → Fed (b ∷ bs) d (dump_blocks writer bs r)
  after-Fed b bs d (zero, d') e rest = taken e (rest d')
  after-Fed b bs d (suc n, d') e rest = rw (closed_blocks bs n d') (refused e)

  blocks-Fed : (bs : List (List ℕ)) (d : D) → Fed bs d (dump_blocks writer bs (0, d))
  unfolding dump_blocks dump_block
  blocks-Fed [] d = all_taken
  blocks-Fed (b ∷ bs) d = after-Fed b bs d (writer b d) refl (blocks-Fed bs)

  -- `luau_dump` hands the blocks of the chunk to the writer one after the other, the header first, and
  -- does not call it again once it has returned a status other than 0, which is then its result.
  pub luau_dump-Fed :
      (f : Proto) (d : D) (strip : Bool) → Fed (chunk_blocks f strip) d (luau_dump f writer d strip)
  unfolding luau_dump
  luau_dump-Fed f d strip = blocks-Fed (chunk_blocks f strip) d
