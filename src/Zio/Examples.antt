-- ===== src/Zio/Examples.antt =====
-- A run of a stream of lib/lunatik/lzio.c.
use lunatik_ng.Base.{◌≡◌, refl, [], ◌∷◌}
use lunatik_ng.Zio.{Zio, luaz_read, luaz_init, luaz_lookahead, luaz_fill, read_loop}

-- Three bytes in two blocks of the reader, and a block behind its end.
abbrev stream : Zio
stream = luaz_init ((10 ∷ 11 ∷ []) ∷ (12 ∷ []) ∷ [] ∷ (13 ∷ []) ∷ [])

read_short :
    luaz_read stream 5 ≡ (2, 10 ∷ 11 ∷ 12 ∷ [], record { n = 0; p = []; chunks = (13 ∷ []) ∷ [] })
unfolding luaz_read read_loop luaz_lookahead luaz_fill
read_short = refl
