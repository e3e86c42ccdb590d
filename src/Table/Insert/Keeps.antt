-- ===== src/Table/Insert/Keeps.antt =====
-- What `newkey` of lib/lunatik/ltable.c does to a table.
use lunatik_ng.Base.{
  ℕ, ◌<◌, ◌≡◌, ◌≢◌, refl, sym, true, false, not, ◌||◌, none, some, ◌==◌, arith, Bool-cases,
  Option-cases, inl, inr, ap, ==_iff,
}
use mathlib.Core.Path.{subst}
use lunatik_ng.Table.{TValue, is_nil, Node, Table, sizenode, mainposition, hashnum, hashmod}
use lunatik_ng.Table.Insert.{
  free_before, getfreepos, put_key, put_behind, move_away, Inserted, placed, full, broken, collide,
  newkey, with_free,
}
use lunatik_ng.Table.Insert.Chains.{HasKey, Chained, put_key-Chained, put_behind-Chained}
use lunatik_ng.Table.Insert.Finds.{Leads, previous_lem, free_before_lem, free_before_pos, none_free}
use lunatik_ng.Table.Insert.Moved.{move_away-Chained}

same_main :
    (t : Table) (node : ℕ → Node) (lastfree : ℕ)
    → mainposition (record t { node = node; lastfree = lastfree }) ≡ mainposition t
unfolding mainposition hashnum hashmod
same_main t node lastfree = refl

-- A table whose nodes without a key have no value, whose chains are whole and no longer than the number
-- of nodes.
pub record IsTable (t : Table) : Type 0 where
  pub chained : Chained (mainposition t) t.node
  pub valued : (i : ℕ) → is_nil (t.node i).i_key ≡ true → is_nil (t.node i).i_val ≡ true
  pub short :
      (i : ℕ)
      → HasKey (t.node i)
      → (s : ℕ) × (s < sizenode t) × Leads t.node s (mainposition t (t.node i).i_key) i

-- `t'` has whole chains, the key in node `i` without a value, and each value of `node` under its key.
pub record Holds (node : ℕ → Node) (key : TValue) (t' : Table) (i : ℕ) : Type 0 where
  pub chained : Chained (mainposition t') t'.node
  pub valued : (i : ℕ) → is_nil (t'.node i).i_key ≡ true → is_nil (t'.node i).i_val ≡ true
  pub key_there : (t'.node i).i_key ≡ key
  pub no_value : is_nil (t'.node i).i_val ≡ true
  pub keeps :
      (j : ℕ)
      → is_nil (node j).i_val ≡ false
      → (j' : ℕ) × ((t'.node j').i_key ≡ (node j).i_key) × ((t'.node j').i_val ≡ (node j).i_val)

-- How an insertion ends: the key has a node, or all nodes before `lastfree` have keys and nothing has
-- changed. A chain without the colliding node does not happen.
abbrev pub Placed : (ℕ → Node) → (lastfree : ℕ) → TValue → Inserted → Type 0
Placed node lastfree key (placed t' i) = Holds node key t' i
Placed node lastfree key (full t') = ((i : ℕ) → i < lastfree → HasKey (node i)) × (t'.node ≡ node)
Placed node lastfree key broken = ⊥

module _ (t : Table) (key : TValue) (ok : IsTable t) (has_key : is_nil key ≡ false) where
  abbrev mp : ℕ
  mp = mainposition t key

  put_key-Holds :
      is_nil (t.node mp).i_val ≡ true
      → Holds t.node key (record t { node = put_key t.node mp key }) mp
  put_key-Holds empty =
      let node' = put_key t.node mp key in
      record {
        chained =
            subst (λ m. Chained m node') (sym (same_main t node' t.lastfree))
              (put_key-Chained (mainposition t) t.node key has_key ok.chained);
        valued = λ i h. ground (arith, ok.valued i);
        key_there = ground arith;
        no_value = ground arith;
        keeps = λ j full. (j, ground (arith, ap t.node), ground arith);
      }

  module _ (n : ℕ) (free : is_nil (t.node n).i_key ≡ true)
      (taken : is_nil (t.node mp).i_val ≡ false) where
    keyed : HasKey (t.node mp)
    keyed = ground (arith, ok.valued mp)

    apart : n ≢ mp
    apart e = ground (arith, ap t.node e, keyed)

    put_behind-Holds :
        mainposition t (t.node mp).i_key ≡ mp
        → Holds t.node key (record t { node = put_behind t.node mp n key }) n
    put_behind-Holds at_home =
        let node' = put_behind t.node mp n key in
        record {
          chained =
              subst (λ m. Chained m node') (sym (same_main t node' t.lastfree))
                (put_behind-Chained (mainposition t) t.node key has_key ok.chained n free keyed
                  at_home);
          valued = λ i h. ground (arith, ok.valued i, ok.valued mp, apart, keyed, has_key);
          key_there = ground (arith, apart);
          no_value = ground (arith, apart, ok.valued n free);
          keeps = λ j full. (
            j,
            ground (arith, ok.valued n free, ap t.node),
            ground (arith, ok.valued n free, ap t.node),
          );
        }

    move_away-Holds :
        (before : ℕ)
        → mainposition t (t.node mp).i_key ≢ mp
        → (t.node before).next ≡ some mp
        → before ≢ mp
        → Holds t.node key (record t { node = move_away t.node before mp n key }) mp
    move_away-Holds before away link not_itself =
        let node' = move_away t.node before mp n key in
        record {
          chained =
              subst (λ m. Chained m node') (sym (same_main t node' t.lastfree))
                (move_away-Chained (mainposition t) t.node key has_key ok.chained n before free
                  keyed away link not_itself);
          valued = λ i h.
              ground (arith, ok.valued i, ok.valued mp, ok.valued before, apart, keyed, has_key);
          key_there = ground arith;
          no_value = ground arith;
          keeps = λ j full. elim (Bool-cases (j == mp)) [
            | inl e ↦ (n, ground (arith, apart, ap t.node), ground (arith, apart, ap t.node))
            | inr ne ↦ (
              j,
              ground (arith, ok.valued n free, ap t.node),
              ground (arith, ok.valued n free, ap t.node),
            )
          ];
        }

    collide-Placed : (lastfree : ℕ) → Placed t.node lastfree key (collide t mp n key)
    unfolding collide
    collide-Placed lastfree = elim (Bool-cases (mainposition t (t.node mp).i_key == mp)) [
      | inl e ↦ rw e (put_behind-Holds ((==_iff (mainposition t (t.node mp).i_key) mp).0 e))
      | inr e ↦
          let away : mainposition t (t.node mp).i_key ≢ mp = λ z. ground arith in
          let (s, le, path) = ok.short mp keyed in
          let (before, found, link, apart_before) =
            previous_lem t.node mp (sizenode t) path refl away (omega arith) in
          rw (e, found) (move_away-Holds before away link apart_before)
    ]

IsTable-lastfree : (t : Table) (n : ℕ) → IsTable t → IsTable (record t { lastfree = n })
IsTable-lastfree t n ok =
    let same = sym (same_main t t.node n) in
    record {
      chained = subst (λ m. Chained m t.node) same ok.chained;
      valued = ok.valued;
      short =
          subst
            (λ m.
              (i : ℕ)
              → HasKey (t.node i)
              → (s : ℕ) × (s < sizenode t) × Leads t.node s (m (t.node i).i_key) i)
            same ok.short;
    }

no_free_place :
    (t : Table)
    → free_before t.lastfree t.node ≡ none
    → getfreepos t ≡ (none, record t { lastfree = 0 })
unfolding getfreepos
no_free_place t e = ground arith

free_place :
    (t : Table) (n : ℕ)
    → free_before t.lastfree t.node ≡ some n
    → getfreepos t ≡ (some n, record t { lastfree = n })
unfolding getfreepos
free_place t n e = ground arith

-- `newkey` always ends, with the key in a node of its own that has no value yet, or with a table to
-- rehash, and the latter only if all nodes before `lastfree` have keys. In the first case all chains
-- are whole, so that each key is found from its main position, and all values are still under their
-- keys; in the second nothing has changed. The chains of the table are whole and no longer than
-- the number of nodes, the key is not nil, and the dummy node has no free place.
pub newkey-Placed :
    (t : Table) (key : TValue)
    → IsTable t
    → is_nil key ≡ false
    → (t.dummy ≡ true → t.lastfree ≡ 0)
    → Placed t.node t.lastfree key (newkey t key)
unfolding newkey
newkey-Placed t key ok has_key dummy_full =
    let mp = mainposition t key in
    elim (Bool-cases (not (is_nil (t.node mp).i_val) || t.dummy)) [
      | inr empty ↦ rw empty (put_key-Holds t key ok has_key (ground arith))
      | inl taken ↦ elim (Option-cases (free_before t.lastfree t.node)) [
        | inl none_left ↦ rw taken (
            subst (λ p. Placed t.node t.lastfree key (with_free mp key p))
              (sym (no_free_place t none_left)) (none_free t.lastfree t.node none_left, refl))
        | inr (n, found) ↦
            let t' : Table = record t { lastfree = n } in
            let free = free_before_lem t.lastfree n t.node found in
            let some_left = free_before_pos t.lastfree n t.node found in
            let real : t.dummy ≡ false = ground (arith, dummy_full) in
            let value : is_nil (t.node mp).i_val ≡ false = ground arith in
            rw taken (
              subst (λ p. Placed t.node t.lastfree key (with_free mp key p))
                (sym (free_place t n found))
                (subst (λ m. Placed t.node t.lastfree key (collide t' (m key) n key))
                  (same_main t t.node n)
                  (collide-Placed t' key (IsTable-lastfree t n ok) has_key n free
                    (subst (λ m. is_nil (t.node (m key)).i_val ≡ false) (sym (same_main t t.node n))
                      value)
                    t.lastfree)))
      ]
    ]
