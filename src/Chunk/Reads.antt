-- ===== src/Chunk/Reads.antt =====
-- Loads of lib/lunatik/lundump.c that read a given sequence of bytes.
pub mod Vectors
use lunatik_ng.Base.{
  ℕ, suc, ◌+◌, ◌*◌, ◌^◌, ◌≤◌, ◌<◌, ◌≡◌, refl, sym, ap, ◌∙◌, none, some, List, [], ◌∷◌, ◌++◌, length,
  take, drop, All, Bool-cases, inl, inr, append_assoc, append-nil, take-append, drop-append,
  length-append, arith, leb,
}
use mathlib.Core.Path.{subst}
use lunatik_ng.Base.Bytes.{le_bytes, le_value, length-le_bytes, le_value-le_bytes}
use lunatik_ng.Zio.{Zio, luaz_read}
use lunatik_ng.Zio.Stream.{contents, IsInSync, luaz_read-IsRead}
use lunatik_ng.Chunk.{Str}
use lunatik_ng.Chunk.Dump.{
  dump_char, dump_int, dump_number, dump_string, dump_vector, word_bytes, dump_each, flat,
}
use lunatik_ng.Chunk.Load.{
  Load, ok, pure, ◌>>=◌, load_block, load_var, load_char, load_int, load_number, load_string,
  load_text, load_vector, words, load_each, check_int, load_list,
}

-- From a stream that starts with the bytes `bs`, the load returns `a` and leaves what is behind them.
abbrev pub Reads : {A : Type 0} → Load A → List ℕ → A → Type 0
Reads m bs a =
    (z : Zio) (rest : List ℕ)
    → IsInSync z
    → contents z ≡ bs ++ rest
    → (z' : Zio) × (m z ≡ ok a z') × (contents z' ≡ rest) × IsInSync z'

pub Reads-pure : {A : Type 0} (a : A) → Reads (pure a) [] a
Reads-pure a z rest sync e = (z, refl, e, sync)

pub bind-ok :
    {A B : Type 0} (m : Load A) (f : A → Load B) (z z' : Zio) (a : A)
    → m z ≡ ok a z'
    → (m >>= f) z ≡ f a z'
bind-ok m f z z' a read = rw (read, ◌>>=◌)

pub Reads-bind :
    {A B : Type 0} (m : Load A) (f : A → Load B) (bs cs : List ℕ) (a : A) (b : B)
    → Reads m bs a
    → Reads (f a) cs b
    → Reads (m >>= f) (bs ++ cs) b
Reads-bind m f bs cs a b first second z rest sync e =
    let (z', read, behind, sync') = first z (cs ++ rest) sync (e ∙ append_assoc bs cs rest) in
    let (z'', done, left, sync'') = second z' rest sync' behind in
    (z'', bind-ok m f z z' a read ∙ done, left, sync'')

pub load_block-read :
    (size : ℕ) (z : Zio) (bs : List ℕ)
    → (luaz_read z size).0 ≡ 0
    → (luaz_read z size).1 ≡ bs
    → load_block size z ≡ ok bs (luaz_read z size).2
unfolding load_block
load_block-read size z bs none_missing same = rw (none_missing, same)

pub load_block-Reads : (bs : List ℕ) → Reads (load_block (length bs)) bs bs
load_block-Reads bs z rest sync e =
    let (missing, bytes, behind) = luaz_read-IsRead z (length bs) sync in
    let enough : length bs ≤ length (contents z) =
      omega (arith, ap length e, length-append bs rest) in
    let (left, sync') = behind enough in
    let z' = (luaz_read z (length bs)).2 in
    let same : take (length bs) (contents z) ≡ bs = ap (take (length bs)) e ∙ take-append bs rest in
    (
      z',
      load_block-read (length bs) z bs (omega arith) (bytes ∙ same),
      left ∙ ap (drop (length bs)) e ∙ drop-append bs rest,
      sync',
    )

pub Reads-length :
    {A : Type 0} (load : ℕ → Load A) (n : ℕ) (bs : List ℕ) (a : A)
    → length bs ≡ n
    → Reads (load (length bs)) bs a
    → Reads (load n) bs a
Reads-length load n bs a e reads = subst (λ n. Reads (load n) bs a) e reads

-- The bytes may be given by other words.
pub Reads-same :
    {A : Type 0} (m : Load A) (bs cs : List ℕ) (a : A) → bs ≡ cs → Reads m bs a → Reads m cs a
Reads-same m bs cs a e reads = subst (λ bs. Reads m bs a) e reads

pub Reads-bind_pure :
    {A B : Type 0} (m : Load A) (f : A → Load B) (bs : List ℕ) (a : A) (b : B)
    → Reads m bs a
    → Reads (f a) [] b
    → Reads (m >>= f) bs b
Reads-bind_pure m f bs a b first second =
    Reads-same (m >>= f) (bs ++ []) bs b (append-nil bs) (Reads-bind m f bs [] a b first second)

pub load_var-Reads : (w n : ℕ) → n < 256 ^ w → Reads (load_var w) (le_bytes w n) n
load_var-Reads w n h =
    Reads-bind_pure (load_block w) (λ b. pure (le_value b)) (le_bytes w n) (le_bytes w n) n
      (Reads-length load_block w (le_bytes w n) (le_bytes w n) (length-le_bytes w n)
        (load_block-Reads (le_bytes w n)))
      (subst (λ v. Reads (pure v) [] n) (sym (le_value-le_bytes w n h)) (Reads-pure n))

pub check_int-Reads : (n : ℕ) → n < 2 ^ 31 → Reads (check_int n) [] n
check_int-Reads n h = elim (Bool-cases (leb (2 ^ 31) n)) [
  | inl e ↦ ground arith
  | inr e ↦ rw (e) (Reads-pure n)
]

pub load_int-Reads : (n : ℕ) → n < 2 ^ 31 → Reads load_int (flat (dump_int n)) n
unfolding load_int
load_int-Reads n h = Reads-same _ (le_bytes 4 n) _ n (sym (append-nil (le_bytes 4 n))) (
    Reads-bind_pure (load_var 4) check_int (le_bytes 4 n) n n (load_var-Reads 4 n (omega arith))
      (check_int-Reads n h))

pub load_char-Reads : (n : ℕ) → n < 256 → Reads load_char (flat (dump_char n)) n
load_char-Reads n h =
    Reads-same _ (le_bytes 1 n) _ n (sym (append-nil (le_bytes 1 n)))
      (load_var-Reads 1 n (omega arith))

pub load_number-Reads : (n : ℕ) → n < 2 ^ 64 → Reads load_number (flat (dump_number n)) n
load_number-Reads n h =
    Reads-same _ (le_bytes 8 n) _ n (sym (append-nil (le_bytes 8 n)))
      (load_var-Reads 8 n (omega arith))

pub flat-append : (xs ys : List (List ℕ)) → flat xs ++ flat ys ≡ flat (xs ++ ys)
flat-append [] ys = refl
flat-append (x ∷ xs) ys =
    append_assoc x (flat xs) (flat ys) ∙ ap (λ bs. x ++ bs) (flat-append xs ys)

-- The same, from the blocks of a dump.
pub record Loads {A : Type 0} (m : Load A) (blocks : List (List ℕ)) (a : A) : Type 0 where
  pub reads : Reads m (flat blocks) a

pub Loads-bind :
    {A B : Type 0} {m : Load A} (f : A → Load B) {xs ys : List (List ℕ)} {a : A} {b : B}
    → Loads m xs a
    → Loads (f a) ys b
    → Loads (m >>= f) (xs ++ ys) b
Loads-bind {m = m} f {xs = xs} {ys = ys} {a = a} {b = b} first second = record {
  reads =
      Reads-same (m >>= f) (flat xs ++ flat ys) (flat (xs ++ ys)) b (flat-append xs ys)
        (Reads-bind m f (flat xs) (flat ys) a b first.reads second.reads);
}

pub Loads-last :
    {A B : Type 0} {m : Load A} (f : A → Load B) {xs : List (List ℕ)} {a : A} {b : B}
    → Loads m xs a
    → Loads (f a) [] b
    → Loads (m >>= f) xs b
Loads-last {m = m} f {xs = xs} {a = a} {b = b} first second = record {
  reads = Reads-bind_pure m f (flat xs) a b first.reads second.reads;
}

pub Loads-pure : {A : Type 0} (a : A) → Loads (pure a) [] a
Loads-pure a = record { reads = Reads-pure a }
