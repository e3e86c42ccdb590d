-- ===== src/Strings/Chains.antt =====
-- The chains of the string table of lib/lunatik/lstring.c: what a search finds, and where a node
-- goes when it is put in a chain or moved to a table of another size.
use lunatik_ng.Base.{
  ℕ, zero, suc, ◌%◌, ◌<◌, ◌≡◌, ◌≢◌, ◌⊎◌, inl, inr, refl, sym, ap, ◌∙◌, true, none, some, List, [],
  ◌∷◌, ◌==◌, arith, Bool-cases,
}
use mathlib.Core.Path.{subst}
use lunatik_ng.Kernel.{update}
use lunatik_ng.Strings.{TString, relink, rehash, same_string, find}

abbrev pub In : TString → List TString → Type 0
In ts [] = ⊥
In ts (x ∷ xs) = (x ≡ ts) ⊎ In ts xs

same_string_lem : (xs ys : List ℕ) → same_string xs ys ≡ true → xs ≡ ys
same_string_lem [] [] h = refl
same_string_lem (x ∷ xs) (y ∷ ys) h = ground (arith, same_string_lem xs ys)
same_string_lem [] (y ∷ ys) h = ground arith
same_string_lem (x ∷ xs) [] h = ground arith

same_string_refl : (xs : List ℕ) → same_string xs xs ≡ true
same_string_refl [] = refl
same_string_refl (x ∷ xs) = ground (arith, same_string_refl xs)

pub find-some :
    (str : List ℕ) (chain : List TString) (p : ℕ)
    → find str chain ≡ some p
    → (ts : TString) × In ts chain × (ts.str ≡ str) × (ts.at ≡ p)
unfolding find
find-some str [] p e = absurd (ground arith)
find-some str (ts ∷ rest) p e = elim (Bool-cases (same_string ts.str str)) [
  | inl same ↦ (ts, inl refl, same_string_lem ts.str str same, ground arith)
  | inr other ↦
      let (ts', here, is_str, at) = find-some str rest p (ground arith) in
      (ts', inr here, is_str, at)
]

pub find-none :
    (str : List ℕ) (chain : List TString) (ts : TString)
    → find str chain ≡ none
    → In ts chain
    → ts.str ≢ str
unfolding find
find-none str [] ts e h same = h
find-none str (x ∷ rest) ts e (inl here) same =
    let hit : same_string x.str str ≡ true = rw (here, same) (same_string_refl str) in ground arith
find-none str (x ∷ rest) ts e (inr there) same = find-none str rest ts (ground arith) there same

-- A node put at the head of the chain `b`.
abbrev pub pushed : (ℕ → List TString) → (b : ℕ) → TString → ℕ → List TString
pushed hash b p = update hash b (p ∷ hash b)

pub pushed_keeps :
    (hash : ℕ → List TString) (b : ℕ) (p ts : TString) (j : ℕ)
    → In ts (hash j)
    → In ts (pushed hash b p j)
pushed_keeps hash b p ts j h = elim (Bool-cases (j == b)) [
  | inl e ↦ rw e (inr (subst (λ x. In ts (hash x)) (ground arith) h))
  | inr e ↦ rw e h
]

pub pushed_there : (hash : ℕ → List TString) (b : ℕ) (p : TString) → In p (pushed hash b p b)
pushed_there hash b p = let e : (b == b) ≡ true = ground arith in rw e (inl refl)

pub pushed_from :
    (hash : ℕ → List TString) (b : ℕ) (p ts : TString) (j : ℕ)
    → In ts (pushed hash b p j)
    → In ts (hash j) ⊎ ((p ≡ ts) × (j ≡ b))
pushed_from hash b p ts j h = elim (Bool-cases (j == b)) [
  | inl e ↦
      let at_b : j ≡ b = ground arith in
      let row : pushed hash b p j ≡ p ∷ hash b = rw e refl in
      elim (subst (In ts) row h) [
        | inl new ↦ inr (new, at_b)
        | inr old ↦ inl (subst (λ x. In ts (hash x)) (sym at_b) old)
      ]
  | inr e ↦ let row : pushed hash b p j ≡ hash j = rw e refl in inl (subst (In ts) row h)
]

module _ (newsize : ℕ) where
  relink_keeps :
      (ps : List TString) (newhash : ℕ → List TString) (ts : TString) (j : ℕ)
      → In ts (newhash j)
      → In ts (relink newsize ps newhash j)
  unfolding relink
  relink_keeps [] newhash ts j h = h
  relink_keeps (p ∷ ps) newhash ts j h =
      relink_keeps ps (pushed newhash (p.hash % newsize) p) ts j
        (pushed_keeps newhash (p.hash % newsize) p ts j h)

  relink_there :
      (ps : List TString) (newhash : ℕ → List TString) (ts : TString)
      → In ts ps
      → In ts (relink newsize ps newhash (ts.hash % newsize))
  unfolding relink
  relink_there [] newhash ts h = absurd h
  relink_there (p ∷ ps) newhash ts (inl here) =
      let there = pushed_there newhash (p.hash % newsize) p in
      subst (λ x. In x (relink newsize (p ∷ ps) newhash (x.hash % newsize))) here
        (relink_keeps ps (pushed newhash (p.hash % newsize) p) p (p.hash % newsize) there)
  relink_there (p ∷ ps) newhash ts (inr h) =
      relink_there ps (pushed newhash (p.hash % newsize) p) ts h

  relink_from :
      (ps : List TString) (newhash : ℕ → List TString) (ts : TString) (j : ℕ)
      → In ts (relink newsize ps newhash j)
      → In ts (newhash j) ⊎ (In ts ps × (j ≡ ts.hash % newsize))
  unfolding relink
  relink_from [] newhash ts j h = inl h
  relink_from (p ∷ ps) newhash ts j h =
      let b = p.hash % newsize in
      elim (relink_from ps (pushed newhash b p) ts j h) [
        | inr (there, e) ↦ inr (inr there, e)
        | inl before ↦ elim (pushed_from newhash b p ts j before) [
          | inl old ↦ inl old
          | inr (here, e) ↦ inr (inl here, e ∙ ap (λ x. x.hash % newsize) here)
        ]
      ]

  pub rehash_there :
      (n : ℕ) (hash : ℕ → List TString) (ts : TString) (i : ℕ)
      → i < n
      → In ts (hash i)
      → In ts (rehash n newsize hash (ts.hash % newsize))
  unfolding rehash
  rehash_there zero hash ts i less h = absurd (omega arith)
  rehash_there (suc n) hash ts i less h = elim (Bool-cases (i == n)) [
    | inl e ↦
        relink_there (hash n) (rehash n newsize hash) ts
          (subst (λ x. In ts (hash x)) (ground arith) h)
    | inr e ↦
        relink_keeps (hash n) (rehash n newsize hash) ts (ts.hash % newsize)
          (rehash_there n hash ts i (ground arith) h)
  ]

  pub rehash_from :
      (n : ℕ) (hash : ℕ → List TString) (ts : TString) (j : ℕ)
      → In ts (rehash n newsize hash j)
      → ((i : ℕ) × (i < n) × In ts (hash i)) × (j ≡ ts.hash % newsize)
  unfolding rehash
  rehash_from zero hash ts j h = absurd h
  rehash_from (suc n) hash ts j h = elim (relink_from (hash n) (rehash n newsize hash) ts j h) [
    | inl before ↦
        let ((i, less, there), e) = rehash_from n hash ts j before in ((i, omega arith, there), e)
    | inr (here, e) ↦ ((n, omega arith, here), e)
  ]
