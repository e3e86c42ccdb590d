-- ===== src/Chunk/Header.antt =====
-- The rejection of streams that are no chunks by `luaU_undump` of lib/lunatik/lundump.c.
use lunatik_ng.Base.{
  ℕ, ◌≤◌, ◌<◌, ◌≡◌, ◌≢◌, sym, ◌∙◌, false, List, length, take, Bool-cases, inl, inr, arith,
}
use lunatik_ng.Zio.{Zio, luaz_read}
use lunatik_ng.Zio.Stream.{contents, IsInSync, luaz_read-IsRead}
use lunatik_ng.Chunk.{luau_header, same_bytes}
use lunatik_ng.Chunk.Load.{fail, ok, ◌>>=◌, unexpected_end, bad_header, load_block, luau_undump}
use lunatik_ng.Chunk.Unstripped.{same_bytes-eq}

load_block-short :
    (size : ℕ) (z : Zio) → 0 < (luaz_read z size).0 → load_block size z ≡ fail unexpected_end
unfolding load_block
load_block-short size z h = ground arith

load_block-full :
    (size : ℕ) (z : Zio)
    → (luaz_read z size).0 ≡ 0
    → load_block size z ≡ ok (luaz_read z size).1 (luaz_read z size).2
unfolding load_block
load_block-full size z h = rw (h)

module _ (room : ℕ) (z : Zio) where
  undump-failed : load_block 12 z ≡ fail unexpected_end → luau_undump room z ≡ fail unexpected_end
  unfolding luau_undump
  undump-failed e = rw (e, ◌>>=◌)

  undump-other :
      (h : List ℕ) (z' : Zio)
      → load_block 12 z ≡ ok h z'
      → same_bytes luau_header h ≡ false
      → luau_undump room z ≡ fail bad_header
  unfolding luau_undump
  undump-other h z' e differs = rw (e, ◌>>=◌, differs)

  -- `luau_undump` of a stream whose count fits its buffer fails with `unexpected_end` if there are
  -- fewer than twelve bytes, and with `bad_header` if the first twelve are not the header.
  pub luau_undump-header :
      IsInSync z
      → (length (contents z) < 12 → luau_undump room z ≡ fail unexpected_end)
        × (12 ≤ length (contents z)
            → take 12 (contents z) ≢ luau_header
            → luau_undump room z ≡ fail bad_header)
  luau_undump-header sync =
      let (missing, bytes, behind) = luaz_read-IsRead z 12 sync in
      (
        λ short. undump-failed (load_block-short 12 z (omega arith)),
        λ enough other.
            undump-other (luaz_read z 12).1 (luaz_read z 12).2 (load_block-full 12 z (omega arith))
              (elim (Bool-cases (same_bytes luau_header (luaz_read z 12).1)) [
                | inl e ↦ absurd (other (sym (same_bytes-eq luau_header _ e ∙ bytes)))
                | inr e ↦ e
              ]),
      )
