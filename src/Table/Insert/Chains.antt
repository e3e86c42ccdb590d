-- ===== src/Table/Insert/Chains.antt =====
-- The chains of the hash part of a table of lib/lunatik/ltable.c, and that an insertion keeps them.
use lunatik_ng.Base.{
  ℕ, ◌≡◌, ◌≢◌, refl, sym, true, false, none, some, ◌==◌, arith, Bool-cases, inl, inr, ap,
}
use mathlib.Core.Path.{subst}
use lunatik_ng.Table.{TValue, is_nil, Node}
use lunatik_ng.Table.Insert.{put_key, put_behind}

-- The chain from node `i` leads to node `j`.
pub data Reaches (node : ℕ → Node) : ℕ → ℕ → Type 0 where
  here : {i : ℕ} → Reaches node i i
  there : {i k j : ℕ} → (node i).next ≡ some k → Reaches node k j → Reaches node i j

abbrev pub HasKey : Node → Type 0
HasKey n = is_nil n.i_key ≡ false

-- `main` gives the main position of a key. A node without a key is in no chain; no node is behind two
-- others; the node at the main position of a key has a key whose main position it is; and the chain
-- from the main position of a key leads to the node that has the key.
pub record Chained (main : TValue → ℕ) (node : ℕ → Node) : Type 0 where
  pub ends : (i : ℕ) → is_nil (node i).i_key ≡ true → (node i).next ≡ none
  pub keyed : (i j : ℕ) → (node i).next ≡ some j → HasKey (node j)
  pub single : (i i' j : ℕ) → (node i).next ≡ some j → (node i').next ≡ some j → i ≡ i'
  pub home :
      (i : ℕ)
      → HasKey (node i)
      → HasKey (node (main (node i).i_key))
        × (main (node (main (node i).i_key)).i_key ≡ main (node i).i_key)
  pub reaches : (i : ℕ) → HasKey (node i) → Reaches node (main (node i).i_key) i

module _ (main : TValue → ℕ) (node : ℕ → Node) (key : TValue) (has_key : is_nil key ≡ false) where
  module _ (chained : Chained main node) where
    abbrev mp : ℕ
    mp = main key

    put_key-Reaches : {i j : ℕ} → Reaches node i j → Reaches (put_key node mp key) i j
    put_key-Reaches here = here
    put_key-Reaches (there {i} {k} e r) = there (ground arith) (put_key-Reaches r)

    pub put_key-Chained : Chained main (put_key node mp key)
    put_key-Chained = record {
      ends = λ i h. ground (arith, chained.ends i);
      keyed = λ i j h. ground (arith, chained.keyed i j);
      single = λ i i' j h h'. ground (arith, chained.single i i' j);
      home = λ i h. ground (arith, chained.home i, has_key);
      reaches = λ i h. elim (Bool-cases (i == mp)) [
        | inl e ↦
            let at_mp : i ≡ mp = ground arith in
            let main_is : mp ≡ main (put_key node mp key i).i_key = rw e refl in
            subst (λ m. Reaches (put_key node mp key) m i) main_is
              (subst (λ q. Reaches (put_key node mp key) mp q) (sym at_mp) here)
        | inr ne ↦
            let old : HasKey (node i) = ground arith in
            let main_is : main (node i).i_key ≡ main (put_key node mp key i).i_key = rw ne refl in
            subst (λ m. Reaches (put_key node mp key) m i) main_is
              (put_key-Reaches (chained.reaches i old))
      ];
    }

    -- `n` has no key, and the node at the main position is in its own main position.
    module _ (n : ℕ) (free : is_nil (node n).i_key ≡ true) (taken : HasKey (node mp))
        (at_home : main (node mp).i_key ≡ mp) where
      apart : n ≢ mp
      apart e = ground (arith, ap node e)

      put_behind-Reaches : {i j : ℕ} → Reaches node i j → Reaches (put_behind node mp n key) i j
      put_behind-Reaches here = here
      put_behind-Reaches (there {i} {k} e r) = elim (Bool-cases (i == mp)) [
        | inl at_mp ↦
            there {k = n} (ground arith) (there (ground (arith, apart)) (put_behind-Reaches r))
        | inr ne ↦ there (ground (arith, chained.ends n)) (put_behind-Reaches r)
      ]

      new_node : (put_behind node mp n key n).i_key ≡ key
      new_node = ground (arith, apart)

      new_node-Reaches : Reaches (put_behind node mp n key) mp n
      new_node-Reaches = there (ground arith) here

      old_key : (i : ℕ) → i ≢ n → (put_behind node mp n key i).i_key ≡ (node i).i_key
      old_key i ne = ground arith

      pub put_behind-Chained : Chained main (put_behind node mp n key)
      put_behind-Chained = record {
        ends = λ i h. ground (arith, chained.ends i, has_key, apart);
        keyed = λ i j h. ground (arith, chained.keyed i j, chained.keyed mp j, has_key, apart);
        single = λ i i' j h h'. ground (
          arith,
          chained.single i i' j,
          chained.single mp i' j,
          chained.single i mp j,
          chained.keyed i n,
          chained.keyed i' n,
          chained.keyed mp n,
          apart,
        );
        home = λ i h. elim (Bool-cases (i == n)) [
          | inl e ↦
              let there_is : (put_behind node mp n key i).i_key ≡ key = ground (arith, apart) in
              rw (there_is, old_key mp (λ z. apart (sym z))) (taken, at_home)
          | inr ne ↦
              let same = old_key i (ground arith) in
              let old : HasKey (node i) = rw⁻¹ same h in
              let (keyed_there, at_home_there) = chained.home i old in
              let other : main (node i).i_key ≢ n = λ z. ground (arith, keyed_there, ap node z) in
              rw (same, old_key (main (node i).i_key) other) (keyed_there, at_home_there)
        ];
        reaches = λ i h. elim (Bool-cases (i == n)) [
          | inl e ↦
              let there_is : (put_behind node mp n key i).i_key ≡ key = ground (arith, apart) in
              let at_n : i ≡ n = ground arith in
              rw there_is
                (subst (Reaches (put_behind node mp n key) mp) (sym at_n) new_node-Reaches)
          | inr ne ↦
              let same = old_key i (ground arith) in
              let old : HasKey (node i) = rw⁻¹ same h in
              rw same (put_behind-Reaches (chained.reaches i old))
        ];
      }
