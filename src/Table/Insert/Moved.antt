-- ===== src/Table/Insert/Moved.antt =====
-- The branch of `newkey` of lib/lunatik/ltable.c that moves a colliding node out of a main position that
-- is not its own: the chains stay whole.
use lunatik_ng.Base.{
  ℕ, ◌≡◌, ◌≢◌, refl, sym, ◌∙◌, true, false, some, ◌==◌, arith, if◌then◌else◌, Bool-cases, inl, inr,
  ap, ==_iff,
}
use mathlib.Core.Path.{subst}
use lunatik_ng.Table.{TValue, is_nil, Node}
use lunatik_ng.Table.Insert.{move_away}
use lunatik_ng.Table.Insert.Chains.{Reaches, here, there, HasKey, Chained}

-- `n` has no key, the node at the main position `mp` of the key is not in its own, and `before` is the
-- node before it.
module _ (main : TValue → ℕ) (node : ℕ → Node) (key : TValue) (has_key : is_nil key ≡ false)
    (chained : Chained main node) (n before : ℕ) (free : is_nil (node n).i_key ≡ true)
    (taken : HasKey (node (main key))) (away : main (node (main key)).i_key ≢ main key)
    (link : (node before).next ≡ some (main key)) (not_itself : before ≢ main key) where
  abbrev mp : ℕ
  mp = main key

  abbrev node' : ℕ → Node
  node' = move_away node before mp n key

  apart : n ≢ mp
  apart e = ground (arith, ap node e)

  before-ne : before ≢ n
  before-ne e = ground (arith, chained.ends n free, ap node e)

  -- Where the key of a node is now.
  moved : ℕ → ℕ
  moved j = if j == mp then n else j

  moved_main : moved mp ≡ n
  unfolding moved
  moved_main = ground arith

  moved_other : (j : ℕ) → j ≢ mp → moved j ≡ j
  unfolding moved
  moved_other j ne = ground arith

  move_away-Reaches :
      {i j : ℕ}
      → Reaches node i j
      → (i ≢ mp → Reaches node' i (moved j)) × (i ≡ mp → Reaches node' n (moved j))
  move_away-Reaches (here {i}) = (
    λ ne. subst (Reaches node' i) (sym (moved_other i ne)) here,
    λ e. subst (Reaches node' n) (sym (ap moved e ∙ moved_main)) here,
  )
  move_away-Reaches (there {i} {k} {j} e r) =
      let (other, same) = move_away-Reaches r in
      (
        λ ne. elim (Bool-cases (k == mp)) [
          | inl c ↦
              let at_mp = (==_iff k mp).0 c in
              let is_before : i ≡ before = chained.single i before mp (e ∙ ap some at_mp) link in
              there {k = n} (ground (arith, apart, before-ne)) (same at_mp)
          | inr c ↦
              let far : k ≢ mp = λ z. ground arith in
              let not_before : i ≢ before = λ z. ground (arith, ap node z) in
              there {k = k} (ground (arith, chained.ends n free, ap node)) (other far)
        ],
        λ at_mp.
            let far : k ≢ mp =
              λ z. not_itself (chained.single before i mp link (e ∙ ap some z) ∙ at_mp) in
            there {k = k} (ground (arith, apart, ap node at_mp)) (other far),
      )

  key_here : (node' mp).i_key ≡ key
  key_here = ground arith

  key_moved : (node' n).i_key ≡ (node mp).i_key
  key_moved = ground (arith, apart)

  key_other : (i : ℕ) → i ≢ mp → i ≢ n → (node' i).i_key ≡ (node i).i_key
  key_other i ne ne' = ground arith

  -- Nothing leads to `n` but the node before, and nothing to the main position.
  next_free : (i : ℕ) → (node i).next ≢ some n
  next_free i e = ground (arith, chained.keyed i n e)

  -- A main position in use has a key that is at home, so that it is neither `mp` nor `n`.
  home_moved :
      (k : TValue)
      → HasKey (node (main k))
      → main (node (main k)).i_key ≡ main k
      → HasKey (node' (main k)) × (main (node' (main k)).i_key ≡ main k)
  home_moved k keyed at_home =
      let ne : main k ≢ mp = λ z. away (ap (λ m. main (node m).i_key) (sym z) ∙ at_home ∙ z) in
      let ne' : main k ≢ n = λ z. ground (arith, ap node z) in
      rw (key_other (main k) ne ne') (keyed, at_home)

  -- The key of node `i` has a main position in use, from which the chain leads to `i`.
  Whole : ℕ → Type 0
  Whole i =
      HasKey (node' (main (node' i).i_key))
      × (main (node' (main (node' i).i_key)).i_key ≡ main (node' i).i_key)
      × Reaches node' (main (node' i).i_key) i

  Whole-key :
      (i : ℕ) (k : TValue)
      → k ≡ (node' i).i_key
      → HasKey (node' (main k)) × (main (node' (main k)).i_key ≡ main k)
      → Reaches node' (main k) i
      → Whole i
  unfolding Whole
  Whole-key i k e (keyed, at_home) r =
      subst
        (λ k.
          HasKey (node' (main k))
          × (main (node' (main k)).i_key ≡ main k)
          × Reaches node' (main k) i)
        e (keyed, at_home, r)

  Whole-mp : Whole mp
  Whole-mp = Whole-key mp key (sym key_here) (rw key_here (has_key, refl)) here

  Whole-n : Whole n
  Whole-n =
      let k = (node mp).i_key in
      let (keyed, at_home) = chained.home mp taken in
      Whole-key n k (sym key_moved) (home_moved k keyed at_home) (
        subst (Reaches node' (main k)) moved_main
          ((move_away-Reaches (chained.reaches mp taken)).0 away))

  Whole-other : (i : ℕ) → i ≢ mp → i ≢ n → HasKey (node' i) → Whole i
  Whole-other i ne ne' h =
      let k = (node i).i_key in
      let old : HasKey (node i) = rw⁻¹ (key_other i ne ne') h in
      let (keyed, at_home) = chained.home i old in
      let start : main k ≢ mp = λ z. away (ap (λ m. main (node m).i_key) (sym z) ∙ at_home ∙ z) in
      Whole-key i k (sym (key_other i ne ne')) (home_moved k keyed at_home) (
        subst (Reaches node' (main k)) (moved_other i ne)
          ((move_away-Reaches (chained.reaches i old)).0 start))

  all_Whole : (i : ℕ) → HasKey (node' i) → Whole i
  all_Whole i h = elim (Bool-cases (i == mp)) [
    | inl e ↦ subst Whole (sym ((==_iff i mp).0 e)) Whole-mp
    | inr ne ↦ elim (Bool-cases (i == n)) [
      | inl e ↦ subst Whole (sym ((==_iff i n).0 e)) Whole-n
      | inr ne' ↦ Whole-other i (λ z. ground arith) (λ z. ground arith) h
    ]
  ]

  pub move_away-Chained : Chained main node'
  move_away-Chained = record {
    ends = λ i h. ground (arith, chained.ends i, has_key, apart, before-ne, link);
    keyed = λ i j h. ground (arith, chained.keyed i j, chained.keyed mp j, has_key, apart);
    single = λ i i' j h h'. ground (
      arith,
      chained.single i i' j,
      chained.single mp i' j,
      chained.single i mp j,
      next_free i,
      next_free i',
      next_free mp,
      apart,
      before-ne,
    );
    home = λ i h. unfold Whole in let (keyed, at_home, r) = all_Whole i h in (keyed, at_home);
    reaches = λ i h. unfold Whole in let (keyed, at_home, r) = all_Whole i h in r;
  }
