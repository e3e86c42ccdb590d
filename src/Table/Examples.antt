-- ===== src/Table/Examples.antt =====
-- Theorems on lib/lunatik/ltable.c at a concrete table.
use lunatik_ng.Base.{
  ℕ, zero, suc, ◌^◌, ◌<◌, ◌≡◌, refl, Bool, true, false, some, none, [], ◌∷◌, pos, leb, arith,
}
use lunatik_ng.Kernel.{update}
use lunatik_ng.Table.{
  string, mainposition, luah_get, nil, number, boolean, Table, empty_node, luah_getnum, value_at,
  search,
}
use lunatik_ng.Table.Length.{luah_getn, nil_at, halve}
use lunatik_ng.Table.Length.Boundary.{IsBoundary, luah_getn-IsBoundary}
use lunatik_ng.Table.Insert.{newkey, placed, put_behind, collide, getfreepos, free_before}
use lunatik_ng.Table.Insert.Chains.{HasKey, here}
use lunatik_ng.Table.Insert.Finds.{arrived}
use lunatik_ng.Table.Insert.Keeps.{IsTable, Placed, newkey-Placed}
use lunatik_ng.Table.Insert.Lookup.{EqualKey, luah_get-EqualKey}
use lunatik_ng.Table.Rehash.{rehash_sizes}
use lunatik_ng.Table.Rehash.Sizes.{SizesFit, rehash_sizes-SizesFit}

-- The values 7 and true at 1 and 2, nil at 3, and no hash part.
abbrev small : Table
small = record {
  array = number (pos 7) ∷ boolean true ∷ nil ∷ [];
  lsizenode = 0;
  node = λ i. empty_node;
  dummy = true;
  lastfree = 0;
}

abbrev absent : ℕ → Bool
absent k = leb 3 k

reads : (k : ℕ) → 0 < k → k < 2 ^ 31 → nil_at small k ≡ some (absent k)
unfolding nil_at luah_getnum value_at search
reads zero positive below = absurd (omega arith)
reads (suc zero) positive below = refl
reads (suc (suc zero)) positive below = refl
reads (suc (suc (suc zero))) positive below = refl
reads (suc (suc (suc (suc k)))) positive below = ground arith

luah_getn-IsBoundary_example : IsBoundary absent (luah_getn small)
luah_getn-IsBoundary_example =
    luah_getn-IsBoundary small absent reads 3 (omega arith) (omega arith) refl (omega arith)
      (λ e. (refl, refl))

two : luah_getn small ≡ some 2
unfolding luah_getn halve
two = refl

rehash_sizes-SizesFit_example :
    SizesFit small (number (pos 4)) (rehash_sizes small (number (pos 4)))
rehash_sizes-SizesFit_example = rehash_sizes-SizesFit small (number (pos 4)) (omega arith)

-- Two nodes; the key true is in its main position 1.
abbrev two_nodes : Table
two_nodes = record {
  array = [];
  lsizenode = 1;
  node =
      update (λ i. empty_node) 1
        (record { i_val = number (pos 7); i_key = boolean true; next = none });
  dummy = false;
  lastfree = 2;
}

only_one : (i : ℕ) → HasKey (two_nodes.node i) → i ≡ 1
only_one i h = ground arith

no_next : (i : ℕ) → (two_nodes.node i).next ≡ none
no_next i = ground arith

two_nodes-IsTable : IsTable two_nodes
unfolding mainposition
two_nodes-IsTable = record {
  chained = record {
    ends = λ i h. no_next i;
    keyed = λ i j e. ground (arith, no_next i);
    single = λ i i' j e e'. ground (arith, no_next i);
    home = λ i h. rw (only_one i h) (refl, refl);
    reaches = λ i h. rw (only_one i h) here;
  };
  valued = λ i h. ground arith;
  short = λ i h. rw (only_one i h) (0, omega arith, arrived);
}

newkey-Placed_example : Placed two_nodes.node 2 (string 9 3) (newkey two_nodes (string 9 3))
newkey-Placed_example =
    newkey-Placed two_nodes (string 9 3) two_nodes-IsTable refl (λ e. absurd (cc))

-- The new key goes behind the other.
placed_behind :
    newkey two_nodes (string 9 3)
    ≡ placed
        (record two_nodes { node = put_behind two_nodes.node 1 0 (string 9 3); lastfree = 0 })
        0
unfolding newkey collide getfreepos free_before mainposition
placed_behind = refl

luah_get-EqualKey_example : EqualKey two_nodes (boolean true) (luah_get two_nodes (boolean true))
luah_get-EqualKey_example =
    luah_get-EqualKey two_nodes two_nodes-IsTable 1 (boolean true) refl refl refl
