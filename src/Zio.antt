-- ===== src/Zio.antt =====
-- The buffered input streams of lib/lunatik/lzio.c and lzio.h.
pub mod Stream
mod Examples
use lunatik_ng.Base.{
  ℕ, zero, suc, ◌+◌, ◌-◌, ◌%◌, ◌^◌, Option, none, some, List, [], ◌∷◌, ◌++◌, ◌==◌, leb, ltb, length,
  take, drop, get_or, if◌then◌else◌,
}

-- `p` has the bytes of the reader's block from the current position on, and `n` is the count of
-- unread bytes. `chunks` is what the coming calls of the reader return, [] for NULL or size 0, as
-- for all calls behind the end of the list.
pub record Zio : Type 0 where
  pub n : ℕ
  pub p : List ℕ
  pub chunks : List (List ℕ)

-- `luaZ_init`
abbrev pub luaz_init : List (List ℕ) → Zio
luaz_init chunks = record { n = 0; p = []; chunks = chunks }

fill_with : Zio → List (List ℕ) → Option ℕ × Zio
fill_with z [] = (none, z)
fill_with z ([] ∷ cs) = (none, record z { chunks = cs })
fill_with z ((b ∷ bs) ∷ cs) = (some b, record { n = length bs; p = bs; chunks = cs })

-- `none` is EOZ.
unfoldable pub luaz_fill : Zio → Option ℕ × Zio
unfolding fill_with
luaz_fill z = fill_with z z.chunks

put_back : Option ℕ × Zio → Option ℕ × Zio
put_back (none, z) = (none, z)
put_back (some b, z) = (some b, record z { n = z.n + 1; p = b ∷ z.p })

unfoldable pub luaz_lookahead : Zio → Option ℕ × Zio
unfolding put_back
luaz_lookahead z = if z.n == 0 then put_back (luaz_fill z) else (some (get_or z.p 0 0), z)

-- `n--` is done on a `size_t`, also where it is 0.
unfoldable pub zgetc : Zio → Option ℕ × Zio
zgetc z =
    if ltb 0 z.n
    then (some (get_or z.p 0 0), record z { n = z.n - 1; p = drop 1 z.p })
    else luaz_fill (record z { n = 2 ^ 64 - 1 })

-- min. between n and z->n
abbrev pub round_size : ℕ → Zio → ℕ
round_size n z = if leb n z.n then n else z.n

abbrev pub advance : ℕ → Zio → Zio
advance m z = record z { n = z.n - m; p = drop m z.p }

-- The loop of `luaZ_read`, with the bytes that were copied. Each round copies a byte at least, so
-- the fuel of `luaz_read` is enough.
unfoldable pub read_loop : (fuel : ℕ) → Zio → (n : ℕ) → List ℕ → ℕ × List ℕ × Zio
read_loop zero z n b = (n, b, z)
read_loop (suc fuel) z zero b = (0, b, z)
read_loop (suc fuel) z (suc n) b =
    let (first, z') = luaz_lookahead z in
    elim first [
      | none ↦ (suc n, b, z')
      | some _ ↦
          let m = round_size (suc n) z' in
          read_loop fuel (advance m z') (suc n - m) (b ++ take m z'.p)
    ]

-- How many bytes are missing, the bytes that were read, and the stream.
unfoldable pub luaz_read : Zio → (n : ℕ) → ℕ × List ℕ × Zio
unfolding read_loop
luaz_read z n = read_loop n z n []
