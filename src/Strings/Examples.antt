-- ===== src/Strings/Examples.antt =====
-- Runs of `luaS_newlstr` of lib/lunatik/lstring.c on a small table.
use lunatik_ng.Base.{ℕ, ◌≡◌, ◌↔◌, refl, false, none, some, List, [], ◌∷◌, arith}
use lunatik_ng.Strings.{
  StringTable, hash_of, relink, rehash, luas_resize, chain, crowd, newlstr, find, luas_newlstr,
}
use lunatik_ng.Strings.Interned.{
  IsInterned, Interns, now, interns, resizes, luas_newlstr-Interns, luas_newlstr_same,
}

-- One bucket, no strings.
abbrev empty_table : StringTable
empty_table = record {
  hash = λ i. [];
  lsize = 0;
  nuse = 0;
  next = 100;
  dead = λ p. false;
  sweeping = false;
}

empty_table-IsInterned : IsInterned empty_table
empty_table-IsInterned = record {
  hashed = λ ts i less h. absurd h;
  once = λ ts ts' (i, less, h) h' e. absurd h;
  apart = λ ts ts' (i, less, h) h' e. absurd h;
  below = λ ts (i, less, h). absurd h;
}

abbrev next_table : StringTable → List ℕ → StringTable
next_table tb str = elim (luas_newlstr tb str) [ some (p, tb') ↦ tb' | none ↦ tb ]

abbrev ab : List ℕ
ab = 97 ∷ 98 ∷ []

abbrev cd : List ℕ
cd = 99 ∷ 100 ∷ []

-- A table with "ab", and one with "cd" as well, which has grown to two buckets.
abbrev with_ab : StringTable
with_ab = next_table empty_table ab

abbrev with_both : StringTable
with_both = next_table with_ab cd

grown_once : with_both.lsize ≡ 1
unfolding luas_newlstr newlstr crowd chain luas_resize find hash_of rehash relink
grown_once = refl

add_ab : luas_newlstr empty_table ab ≡ some (100, with_ab)
unfolding luas_newlstr newlstr crowd chain luas_resize find hash_of rehash relink
add_ab = refl

add_cd : luas_newlstr with_ab cd ≡ some (101, with_both)
unfolding luas_newlstr newlstr crowd chain luas_resize find hash_of rehash relink
add_cd = refl

abbrev wider : StringTable
wider = luas_resize with_both 5

add_again : luas_newlstr wider ab ≡ some (100, next_table wider ab)
unfolding luas_newlstr newlstr crowd chain luas_resize find hash_of rehash relink
add_again = refl

luas_newlstr-Interns_example :
    (p : ℕ) × (tb' : StringTable) × (luas_newlstr empty_table ab ≡ some (p, tb'))
    × Interns empty_table ab p tb'
luas_newlstr-Interns_example =
    luas_newlstr-Interns empty_table empty_table-IsInterned ab (omega arith)

abbrev address : ℕ
address = 100

luas_newlstr_same_example : (address ≡ address) ↔ (ab ≡ ab)
luas_newlstr_same_example =
    luas_newlstr_same empty_table with_ab wider (next_table wider ab) ab ab address address
      empty_table-IsInterned add_ab (interns cd add_cd (resizes 5 now)) add_again
