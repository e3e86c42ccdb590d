-- ===== src/Table/Insert/Finds.antt =====
-- What the loops of `getfreepos` and `newkey` of lib/lunatik/ltable.c find.
use lunatik_ng.Base.{
  ℕ, zero, suc, ◌≤◌, ◌<◌, ◌≡◌, ◌≢◌, sym, ◌∙◌, true, none, some, ◌==◌, arith, Bool-cases, inl, inr,
  ap, ==_iff,
}
use mathlib.Core.Path.{subst}
use lunatik_ng.Table.{is_nil, Node}
use lunatik_ng.Table.Insert.{free_before, previous}
use lunatik_ng.Table.Insert.Chains.{HasKey}

-- The chain from one node leads to another in so many steps.
pub data Leads (node : ℕ → Node) : (steps i j : ℕ) → Type 0 where
  arrived : {i : ℕ} → Leads node 0 i i
  step : {s i k j : ℕ} → (node i).next ≡ some k → Leads node s k j → Leads node (suc s) i j

-- The node before `mp` is found.
pub previous_lem :
    (node : ℕ → Node) (mp fuel : ℕ) {s i j : ℕ}
    → Leads node s i j
    → j ≡ mp
    → i ≢ mp
    → s ≤ fuel
    → (before : ℕ) × (previous fuel node mp i ≡ some before)
      × ((node before).next ≡ some mp)
      × (before ≢ mp)
unfolding previous
previous_lem node mp fuel arrived at ne le = absurd (ne at)
previous_lem node mp zero (step e r) at ne le = absurd (omega arith)
previous_lem node mp (suc fuel) (step {s} {i} {k} e r) at ne le = elim (Bool-cases (k == mp)) [
  | inl c ↦ (i, ground arith, e ∙ ap some ((==_iff k mp).0 c), ne)
  | inr c ↦
      let (before, found, link, apart) =
        previous_lem node mp fuel r at (λ z. ground arith) (omega arith) in
      (before, ground (arith, found), link, apart)
]

pub free_before_lem :
    (lastfree n : ℕ) (node : ℕ → Node)
    → free_before lastfree node ≡ some n
    → is_nil (node n).i_key ≡ true
unfolding free_before
free_before_lem zero n node e = ground arith
free_before_lem (suc l) n node e = ground (arith, free_before_lem l n node)

pub free_before_pos :
    (lastfree n : ℕ) (node : ℕ → Node) → free_before lastfree node ≡ some n → 0 < lastfree
unfolding free_before
free_before_pos zero n node e = ground arith
free_before_pos (suc l) n node e = omega arith

pub none_free :
    (lastfree : ℕ) (node : ℕ → Node)
    → free_before lastfree node ≡ none
    → (i : ℕ) → i < lastfree
    → HasKey (node i)
unfolding free_before
none_free zero node e i lt = absurd (omega arith)
none_free (suc l) node e i lt = elim (Bool-cases (i == l)) [
  | inl c ↦ subst (λ q. HasKey (node q)) (sym ((==_iff i l).0 c)) (ground arith)
  | inr c ↦ none_free l node (ground arith) i (ground arith)
]
