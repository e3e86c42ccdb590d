-- ===== src/Zio/Stream.antt =====
-- `luaZ_read` of lib/lunatik/lzio.c against the sequence of bytes that a stream stands for.
use lunatik_ng.Base.{
  ℕ, zero, suc, ◌-◌, ◌^◌, ◌≤◌, ◌<◌, ◌≡◌, refl, sym, ap, Option, none, some, List, [], ◌∷◌, ◌++◌,
  length, take, drop, arith, append_assoc, append-nil, ◌∙◌, take-append_le, drop-append_le,
  take-split, drop-split, get_or, length-append, length-drop,
}
use mathlib.Core.Path.{subst}
use lunatik_ng.Zio.{
  zgetc, Zio, luaz_fill, luaz_lookahead, read_loop, round_size, advance, luaz_read,
}

-- The bytes of the reader's blocks, up to the first call that returns none.
abbrev upcoming : List (List ℕ) → List ℕ
upcoming [] = []
upcoming ([] ∷ cs) = []
upcoming ((b ∷ bs) ∷ cs) = (b ∷ bs) ++ upcoming cs

-- The bytes that are still to be read.
abbrev pub contents : Zio → List ℕ
contents z = z.p ++ upcoming z.chunks

-- The count fits the buffer.
abbrev pub IsInSync : Zio → Type 0
IsInSync z = z.n ≡ length z.p

-- What is ahead of a stream after the test for its end: the first byte is in the buffer.
data IsAhead (z : Zio) (r : Option ℕ × Zio) : Type 0 where
  at_end : (z' : Zio) → r ≡ (none, z') → contents z ≡ [] → IsAhead z r
  more :
      (b : ℕ) (z' : Zio)
      → r ≡ (some b, z')
      → IsInSync z'
      → 0 < z'.n
      → contents z' ≡ contents z
      → IsAhead z r

fill-IsAhead :
    (p : List ℕ) (cs : List (List ℕ))
    → p ≡ []
    → IsAhead
        (record { n = 0; p = p; chunks = cs })
        (luaz_lookahead (record { n = 0; p = p; chunks = cs }))
unfolding luaz_lookahead luaz_fill
fill-IsAhead p [] e = at_end _ refl (rw (e, append-nil))
fill-IsAhead p ([] ∷ cs) e = at_end _ refl (rw (e))
fill-IsAhead p ((b ∷ bs) ∷ cs) e = more b _ refl (omega arith) (omega arith) (rw (e))

luaz_lookahead-buffered :
    (n : ℕ) (p : List ℕ) (cs : List (List ℕ))
    → luaz_lookahead (record { n = suc n; p = p; chunks = cs })
      ≡ (some (get_or p 0 0), record { n = suc n; p = p; chunks = cs })
unfolding luaz_lookahead
luaz_lookahead-buffered n p cs = ground arith

buffered-IsAhead :
    (n : ℕ) (p : List ℕ) (cs : List (List ℕ))
    → n ≡ length p
    → IsAhead
        (record { n = n; p = p; chunks = cs })
        (luaz_lookahead (record { n = n; p = p; chunks = cs }))
buffered-IsAhead zero [] cs h = fill-IsAhead [] cs refl
buffered-IsAhead zero (x ∷ xs) cs h = ground arith
buffered-IsAhead (suc n) p cs h =
    more (get_or p 0 0) _ (luaz_lookahead-buffered n p cs) h (omega arith) refl

luaz_lookahead-IsAhead : (z : Zio) → IsInSync z → IsAhead z (luaz_lookahead z)
luaz_lookahead-IsAhead z h = buffered-IsAhead z.n z.p z.chunks h

-- What a read of `n` bytes gives at the bytes `c`, if it has copied `b` already: the number of missing
-- bytes, all bytes copied, and the stream behind them if none is missing.
abbrev pub IsRead : (c : List ℕ) (n : ℕ) → List ℕ → ℕ × List ℕ × Zio → Type 0
IsRead c n b (left, out, z') =
    (left ≡ n - length c)
    × (out ≡ b ++ take n c)
    × (n ≤ length c → (contents z' ≡ drop n c) × IsInSync z')

IsRead-none : (z : Zio) (b : List ℕ) → IsInSync z → IsRead (contents z) 0 b (0, b, z)
IsRead-none z b sync = (omega arith, sym (append-nil b), λ _. (refl, sync))

IsRead-round :
    (c : List ℕ) (m n : ℕ) (b : List ℕ) (r : ℕ × List ℕ × Zio)
    → m ≤ n
    → m ≤ length c
    → IsRead (drop m c) (n - m) (b ++ take m c) r
    → IsRead c n b r
IsRead-round c m n b (left, out, z') le fits (missing, bytes, behind) =
    let len = length-drop m c in
    (
      omega arith,
      bytes
          ∙ append_assoc b (take m c) (take (n - m) (drop m c))
          ∙ ap (λ xs. b ++ xs) (take-split m n c le),
      λ enough. let (same, sync) = behind (omega arith) in (same ∙ drop-split m n c le, sync),
    )

-- The bytes that a round copies from the buffer, and those behind them.
round_bytes :
    (z : Zio) (m : ℕ)
    → m ≤ length z.p
    → (take m z.p ≡ take m (contents z)) × (drop m z.p ++ upcoming z.chunks ≡ drop m (contents z))
round_bytes z m h = (
  sym (take-append_le m z.p (upcoming z.chunks) h),
  sym (drop-append_le m z.p (upcoming z.chunks) h),
)

-- A round at a stream with `m` bytes in the buffer.
copy-IsRead :
    (z : Zio) (m n : ℕ) (b : List ℕ) (r : ℕ × List ℕ × Zio)
    → IsInSync z
    → m ≤ n
    → m ≤ z.n
    → IsRead (drop m z.p ++ upcoming z.chunks) (n - m) (b ++ take m z.p) r
    → IsRead (contents z) n b r
copy-IsRead z m n b r sync le fits rest =
    let (bytes, behind) = round_bytes z m (omega arith) in
    IsRead-round (contents z) m n b r le (omega (arith, length-append z.p (upcoming z.chunks)))
      (rw (bytes, behind) at rest)

-- The state behind a round that starts with the result `r` of the test for the end.
abbrev after : (fuel n : ℕ) → List ℕ → Option ℕ × Zio → ℕ × List ℕ × Zio
after fuel n b r = elim r.0 [
  | none ↦ (suc n, b, r.1)
  | some _ ↦
      read_loop fuel (advance (round_size (suc n) r.1) r.1) (suc n - round_size (suc n) r.1)
        (b ++ take (round_size (suc n) r.1) r.1.p)
]

read_loop-after :
    (fuel : ℕ) (z : Zio) (n : ℕ) (b : List ℕ)
    → after fuel n b (luaz_lookahead z) ≡ read_loop (suc fuel) z (suc n) b
unfolding read_loop
read_loop-after fuel z n b = refl

read_loop-none : (fuel : ℕ) (z : Zio) (b : List ℕ) → read_loop fuel z 0 b ≡ (0, b, z)
unfolding read_loop
read_loop-none zero z b = refl
read_loop-none (suc fuel) z b = refl

round_size-bounds :
    (n : ℕ) (z : Zio)
    → 0 < z.n
    → (0 < round_size (suc n) z) × (round_size (suc n) z ≤ suc n) × (round_size (suc n) z ≤ z.n)
round_size-bounds n z h = ground arith

after-IsRead :
    (fuel : ℕ) (z : Zio) (n : ℕ) (b : List ℕ) (r : Option ℕ × Zio)
    → IsAhead z r
    → ((z : Zio) (n : ℕ) (b : List ℕ)
        → IsInSync z
        → n ≤ fuel
        → IsRead (contents z) n b (read_loop fuel z n b))
    → n ≤ fuel
    → IsRead (contents z) (suc n) b (after fuel n b r)
after-IsRead fuel z n b r ahead ih h = elim ahead [
  | at_end z' e empty ↦
      subst (λ r. IsRead (contents z) (suc n) b (after fuel n b r)) (sym e)
        (subst (λ c. IsRead c (suc n) b (suc n, b, z')) (sym empty)
          (omega arith, sym (append-nil b), λ enough. ground arith))
  | more x z' e sync positive same ↦
      let m = round_size (suc n) z' in
      let (moves, le, fits) = round_size-bounds n z' positive in
      let len = length-drop m z'.p in
      subst (λ r. IsRead (contents z) (suc n) b (after fuel n b r)) (sym e)
        (subst (λ c. IsRead c (suc n) b (after fuel n b (some x, z'))) same
          (copy-IsRead z' m (suc n) b _ sync le fits
            (ih (advance m z') (suc n - m) (b ++ take m z'.p) (omega arith) (omega arith))))
]

read_loop-IsRead :
    (fuel : ℕ) (z : Zio) (n : ℕ) (b : List ℕ)
    → IsInSync z
    → n ≤ fuel
    → IsRead (contents z) n b (read_loop fuel z n b)
read_loop-IsRead fuel z zero b sync h =
    subst (IsRead (contents z) 0 b) (sym (read_loop-none fuel z b)) (IsRead-none z b sync)
read_loop-IsRead zero z (suc n) b sync h = ground arith
read_loop-IsRead (suc fuel) z (suc n) b sync h =
    subst (IsRead (contents z) (suc n) b) (read_loop-after fuel z n b) (
      after-IsRead fuel z n b (luaz_lookahead z) (luaz_lookahead-IsAhead z sync)
        (read_loop-IsRead fuel) (omega arith))

-- `luaz_read` of `n` bytes of a stream whose count fits its buffer returns how many of them the
-- stream lacks and copies the others, the first bytes of its contents; if it lacks none, the stream
-- stands for the bytes behind them, and its count fits its buffer again.
pub luaz_read-IsRead : (z : Zio) (n : ℕ) → IsInSync z → IsRead (contents z) n [] (luaz_read z n)
unfolding luaz_read
luaz_read-IsRead z n sync = read_loop-IsRead n z n [] sync (omega arith)

-- What `zgetc` gives at the bytes `c`: the first of them with the stream behind it, or EOZ.
abbrev pub IsGot : List ℕ → Option ℕ × Zio → Type 0
IsGot [] (first, z') = first ≡ none
IsGot (b ∷ c) (first, z') = (first ≡ some b) × (contents z' ≡ c) × IsInSync z'

fill-IsGot :
    (n : ℕ) (cs : List (List ℕ))
    → IsGot (upcoming cs) (luaz_fill (record { n = n; p = []; chunks = cs }))
unfolding luaz_fill
fill-IsGot n [] = refl
fill-IsGot n ([] ∷ cs) = refl
fill-IsGot n ((b ∷ bs) ∷ cs) = (refl, refl, refl)

zgetc_parts :
    (n : ℕ) (p : List ℕ) (cs : List (List ℕ))
    → n ≡ length p
    → IsGot (p ++ upcoming cs) (zgetc (record { n = n; p = p; chunks = cs }))
unfolding zgetc
zgetc_parts zero [] cs h = fill-IsGot (2 ^ 64 - 1) cs
zgetc_parts zero (x ∷ xs) cs h = ground arith
zgetc_parts (suc n) [] cs h = ground arith
zgetc_parts (suc n) (x ∷ xs) cs h = ground arith

-- `zgetc` of a stream whose count fits its buffer gives the first byte of its contents and leaves
-- the others, with the count in step with the buffer again, or EOZ if there is none.
pub zgetc-IsGot : (z : Zio) → IsInSync z → IsGot (contents z) (zgetc z)
zgetc-IsGot z sync = zgetc_parts z.n z.p z.chunks sync
