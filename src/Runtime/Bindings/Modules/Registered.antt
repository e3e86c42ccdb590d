-- ===== src/Runtime/Bindings/Modules/Registered.antt =====
-- The registry of lib/lunatik/lunatik.c while the modules of lib/lunatik/bindings come and go.
use lunatik_ng.Base.{
  ℕ, zero, suc, ◌≡◌, ◌≢◌, ◌⊎◌, inl, inr, refl, sym, ap, false, some, List, [], ◌∷◌, ◌++◌, map,
  arith, Option-cases,
}
use mathlib.Core.Path.{subst}
use lunatik_ng.Kernel.{Kernel, IsFresh, is_err}
use lunatik_ng.Runtime.{Binding, Block, binding_node}
use lunatik_ng.Runtime.Bindings.{unlink}
use lunatik_ng.Runtime.Bindings.Modules.{Loaded, Modules, take_out}

module _ {S : Type 0} where
  abbrev pub node : Loaded S → Binding S
  node l = record { at = l.binding; owner = l.of.owner; regfunc = l.of.regfunc }

  -- The static pointer of one of the modules.
  abbrev pub At : ℕ → List (Loaded S) → Type 0
  At p [] = ⊥
  At p (l ∷ ls) = (l.binding ≡ p) ⊎ At p ls

  abbrev pub Distinct : List (Loaded S) → Type 0
  Distinct [] = Unit
  Distinct (l ∷ ls) = (At l.binding ls → ⊥) × Distinct ls

  -- The registry has the bindings of the loaded modules, in the order in which they were loaded. Each has
  -- a node of its own, whose address is neither NULL nor an error pointer, and there are no other nodes.
  pub record IsRegistered (s : Modules S) (k : Kernel (Block S)) : Type 0 where
    pub listed : s.reg ≡ map node s.loaded
    pub distinct : Distinct s.loaded
    pub allocated : (p : ℕ) → At p s.loaded → k.heap p ≡ some binding_node
    pub owned : (p : ℕ) → k.heap p ≡ some binding_node → At p s.loaded
    pub valid : (p : ℕ) → At p s.loaded → (p ≢ 0) × (is_err p ≡ false)
    pub fresh : IsFresh k

  pub At-append :
      (p : ℕ) (xs : List (Loaded S)) (l : Loaded S)
      → At p (xs ++ l ∷ [])
      → At p xs ⊎ (l.binding ≡ p)
  At-append p [] l (inl e) = inr e
  At-append p [] l (inr h) = absurd h
  At-append p (x ∷ xs) l (inl e) = inl (inl e)
  At-append p (x ∷ xs) l (inr h) = elim (At-append p xs l h) [
    | inl old ↦ inl (inr old)
    | inr new ↦ inr new
  ]

  pub At-weaken : (p : ℕ) (xs : List (Loaded S)) (l : Loaded S) → At p xs → At p (xs ++ l ∷ [])
  At-weaken p [] l h = absurd h
  At-weaken p (x ∷ xs) l (inl e) = inl e
  At-weaken p (x ∷ xs) l (inr h) = inr (At-weaken p xs l h)

  pub At-end : (xs : List (Loaded S)) (l : Loaded S) → At l.binding (xs ++ l ∷ [])
  At-end [] l = inl refl
  At-end (x ∷ xs) l = inr (At-end xs l)

  pub Distinct-append :
      (xs : List (Loaded S)) (l : Loaded S)
      → Distinct xs
      → (At l.binding xs → ⊥)
      → Distinct (xs ++ l ∷ [])
  Distinct-append [] l h new = (λ e. e, tt)
  Distinct-append (x ∷ xs) l (first, rest) new = (
    λ h. elim (At-append x.binding xs l h) [ inl old ↦ first old | inr e ↦ new (inl (sym e)) ],
    Distinct-append xs l rest (λ h. new (inr h)),
  )

  pub map-append :
      (xs : List (Loaded S)) (l : Loaded S) → map node xs ++ node l ∷ [] ≡ map node (xs ++ l ∷ [])
  map-append [] l = refl
  map-append (x ∷ xs) l = ap (λ r. node x ∷ r) (map-append xs l)

  -- What taking a module out of the list does.
  pub record TakenOut (xs : List (Loaded S)) (l : Loaded S) (rest : List (Loaded S)) : Type 0 where
    pub unlinked : unlink l.binding (map node xs) ≡ map node rest
    pub apart : Distinct rest
    pub was : At l.binding xs
    pub gone : At l.binding rest → ⊥
    pub stays : (p : ℕ) → At p xs → p ≢ l.binding → At p rest
    pub before : (p : ℕ) → At p rest → At p xs

  pub take_out_lem :
      (i : ℕ) (xs : List (Loaded S)) (l : Loaded S) (rest : List (Loaded S))
      → Distinct xs
      → take_out i xs ≡ some (l, rest)
      → TakenOut xs l rest
  unfolding take_out unlink
  take_out_lem i [] l rest d e = absurd (ground arith)
  take_out_lem zero (x ∷ xs) l rest (first, d) e =
      let is_l : x ≡ l = ground arith in
      let is_rest : xs ≡ rest = ground arith in
      subst (λ r. TakenOut (x ∷ xs) l r) is_rest
        (subst (λ y. TakenOut (x ∷ xs) y xs) is_l
          (record {
            unlinked = ground arith;
            apart = d;
            was = inl refl;
            gone = first;
            stays = λ p h ne. elim h [ inl here ↦ absurd (ne (sym here)) | inr there ↦ there ];
            before = λ p h. inr h;
          }))
  take_out_lem (suc i) (x ∷ xs) l rest (first, d) e = elim (Option-cases (take_out i xs)) [
    | inl nothing ↦ absurd (ground arith)
    | inr ((l', rest'), taken) ↦
        let is_l : l' ≡ l = ground arith in
        let is_rest : x ∷ rest' ≡ rest = ground arith in
        let t = take_out_lem i xs l' rest' d taken in
        let other : x.binding ≢ l'.binding =
          λ same. first (subst (λ p. At p xs) (sym same) t.was) in
        subst (λ r. TakenOut (x ∷ xs) l r) is_rest
          (subst (λ y. TakenOut (x ∷ xs) y (x ∷ rest')) is_l
            (record {
              unlinked = ground (arith, other, t.unlinked);
              apart = (λ h. first (t.before x.binding h), t.apart);
              was = inr t.was;
              gone = λ h. elim h [ inl here ↦ other here | inr there ↦ t.gone there ];
              stays =
                  λ p h ne. elim h [ inl here ↦ inl here | inr there ↦ inr (t.stays p there ne) ];
              before = λ p h. elim h [ inl here ↦ inl here | inr there ↦ inr (t.before p there) ];
            }))
  ]
