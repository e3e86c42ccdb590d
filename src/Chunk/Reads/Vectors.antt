-- ===== src/Chunk/Reads/Vectors.antt =====
-- The loads of strings, vectors and lists of lib/lunatik/lundump.c.
use lunatik_ng.Base.{
  ℕ, suc, ◌+◌, ◌*◌, ◌^◌, ◌<◌, ◌≡◌, refl, sym, none, some, List, [], ◌∷◌, ◌++◌, length, take, All,
  append-nil, take-append, length-append, arith,
}
use mathlib.Core.Path.{subst}
use lunatik_ng.Base.Bytes.{le_bytes, length-le_bytes, le_value-le_bytes}
use lunatik_ng.Chunk.{Str}
use lunatik_ng.Chunk.Dump.{dump_int, dump_string, dump_vector, word_bytes, dump_each, flat}
use lunatik_ng.Chunk.Load.{
  Load, pure, ◌>>=◌, load_block, load_var, load_int, load_string, load_text, load_vector, words,
  load_each, load_list,
}
use lunatik_ng.Chunk.Reads.{
  Reads, Reads-bind, Reads-bind_pure, Reads-length, Reads-pure, Reads-same, flat-append,
  load_block-Reads, load_int-Reads, load_var-Reads,
}

text-Reads : (s : List ℕ) → Reads (load_text (suc (length s))) (s ++ 0 ∷ []) (some s)
text-Reads s =
    Reads-bind_pure (load_block (suc (length s))) (λ b. pure (some (take (length s) b)))
      (s ++ 0 ∷ []) (s ++ 0 ∷ []) (some s)
      (Reads-length load_block (suc (length s)) (s ++ 0 ∷ []) (s ++ 0 ∷ [])
        (omega (arith, length-append s (0 ∷ []))) (load_block-Reads (s ++ 0 ∷ [])))
      (subst (λ t. Reads (pure (some t)) [] (some s)) (sym (take-append s (0 ∷ [])))
        (Reads-pure (some s)))

-- A string that the dump can announce: its size fits a `size_t`.
abbrev pub IsStr : Str → Type 0
IsStr none = Unit
IsStr (some s) = length s + 1 < 2 ^ 64

pub load_string-Reads : (s : Str) → IsStr s → Reads load_string (flat (dump_string s)) s
unfolding load_string
load_string-Reads none h =
    Reads-bind (load_var 8) load_text (le_bytes 8 0) [] 0 none (load_var-Reads 8 0 (omega arith))
      (Reads-pure none)
load_string-Reads (some s) h =
    Reads-bind (load_var 8) load_text (le_bytes 8 (length s + 1)) ((s ++ 0 ∷ []) ++ [])
      (length s + 1) (some s) (load_var-Reads 8 (length s + 1) (omega arith))
      (Reads-same _ (s ++ 0 ∷ []) _ (some s) (sym (append-nil (s ++ 0 ∷ []))) (
        subst (λ n. Reads (load_text n) (s ++ 0 ∷ []) (some s)) {x = suc (length s)} (omega arith)
          (text-Reads s)))

abbrev pub AreWords : List ℕ → Type 0
AreWords xs = All (λ x. x < 2 ^ 32) xs × (length xs < 2 ^ 31)

length-word_bytes : (xs : List ℕ) → length (word_bytes xs) ≡ length xs * 4
length-word_bytes [] = omega arith
length-word_bytes (x ∷ xs) =
    omega (
      arith,
      length-append (le_bytes 4 x) (word_bytes xs),
      length-le_bytes 4 x,
      length-word_bytes xs,
    )

words-word_bytes : (xs : List ℕ) → All (λ x. x < 2 ^ 32) xs → words (length xs) (word_bytes xs) ≡ xs
words-word_bytes [] h = refl
words-word_bytes (x ∷ xs) (h, hs) = rw (words-word_bytes xs hs, le_value-le_bytes 4 x (omega arith))

pub load_vector-Reads : (xs : List ℕ) → AreWords xs → Reads load_vector (flat (dump_vector xs)) xs
unfolding load_vector
load_vector-Reads xs (fits, few) =
    Reads-bind load_int (λ n. load_block (n * 4) >>= λ b. pure (words n b))
      (flat (dump_int (length xs))) (word_bytes xs ++ []) (length xs) xs
      (load_int-Reads (length xs) few)
      (Reads-same _ (word_bytes xs) _ xs (sym (append-nil (word_bytes xs))) (
        Reads-bind_pure (load_block (length xs * 4)) (λ b. pure (words (length xs) b))
          (word_bytes xs) (word_bytes xs) xs
          (Reads-length load_block (length xs * 4) (word_bytes xs) (word_bytes xs)
            (length-word_bytes xs) (load_block-Reads (word_bytes xs)))
          (subst (λ ws. Reads (pure ws) [] xs) (sym (words-word_bytes xs fits)) (Reads-pure xs))))

-- A load of a list, its elements given by their blocks.
module _ {A : Type 0} (load : Load A) (dump : A → List (List ℕ)) (P : A → Type 0)
    (element : (a : A) → P a → Reads load (flat (dump a)) a) where
  load_each-Reads :
      (xs : List A) → All P xs → Reads (load_each load (length xs)) (flat (dump_each dump xs)) xs
  unfolding load_each
  load_each-Reads [] h = Reads-pure []
  load_each-Reads (x ∷ xs) (h, hs) =
      Reads-same _ (flat (dump x) ++ flat (dump_each dump xs)) _ (x ∷ xs)
        (flat-append (dump x) (dump_each dump xs))
        (Reads-bind load _ (flat (dump x)) (flat (dump_each dump xs)) x (x ∷ xs) (element x h) (
          Reads-bind_pure (load_each load (length xs)) (λ xs. pure (x ∷ xs))
            (flat (dump_each dump xs)) xs (x ∷ xs) (load_each-Reads xs hs) (Reads-pure (x ∷ xs))))

  pub load_list-Reads :
      (xs : List A)
      → All P xs
      → length xs < 2 ^ 31
      → Reads (load_list load) (flat (dump_int (length xs) ++ dump_each dump xs)) xs
  load_list-Reads xs h few =
      Reads-same _ (flat (dump_int (length xs)) ++ flat (dump_each dump xs)) _ xs
        (flat-append (dump_int (length xs)) (dump_each dump xs))
        (Reads-bind load_int (load_each load) (flat (dump_int (length xs)))
          (flat (dump_each dump xs)) (length xs) xs (load_int-Reads (length xs) few)
          (load_each-Reads xs h))
