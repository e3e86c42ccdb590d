-- ===== src/Runtime/Bindings/Modules/Steps.antt =====
-- What a load and an unload of a module of lib/lunatik/bindings do to the registry of
-- lib/lunatik/lunatik.c, in any order.
use lunatik_ng.Base.{
  ℕ, zero, ◌-◌, ◌^◌, ◌+◌, ◌<◌, ◌≡◌, ◌⊎◌, inl, inr, refl, ap, ◌∙◌, Bool, true, false, none, some,
  List, [], ◌∷◌, ◌++◌, ◌==◌, arith, Bool-cases,
}
use mathlib.Core.Path.{subst}
use lunatik_ng.Kernel.{Kernel, update, kmalloc, is_err}
use lunatik_ng.Runtime.{Block, binding_node}
use lunatik_ng.Runtime.Bindings.{unlink}
use lunatik_ng.Runtime.Bindings.Modules.{
  BindingModule, Loaded, Modules, load_module, unload_module, take_out,
}
use lunatik_ng.Runtime.Bindings.Modules.Registered.{
  node, At, IsRegistered, At-append, At-weaken, At-end, Distinct-append, map-append, TakenOut,
}

module _ {S : Type 0} where
  -- The outcomes of an allocation.
  module _ (k : Kernel (Block S)) (b : Block S) where
    abbrev pub got : List Bool → Kernel (Block S)
    got o' = record k { heap = update k.heap k.next (some b); next = k.next + 1; oracle = o' }

  kmalloc_cases :
      (k : Kernel (Block S)) (b : Block S) (o : List Bool)
      → (o' : List Bool) × ((kmalloc b (record k { oracle = o }) ≡ some (k.next, got k b o'))
          ⊎ (kmalloc b (record k { oracle = o }) ≡ some (0, record k { oracle = o' })))
  unfolding kmalloc
  kmalloc_cases k b [] = ([], inl refl)
  kmalloc_cases k b (true ∷ o) = (o, inl refl)
  kmalloc_cases k b (false ∷ o) = (o, inr refl)

  module _ (m : BindingModule S) (s : Modules S) (k : Kernel (Block S)) where
    abbrev pub new : Loaded S
    new = record { of = m; binding = k.next }

    abbrev pub added : Modules S
    added = record { reg = s.reg ++ node new ∷ []; loaded = s.loaded ++ new ∷ [] }

    pub load_module_cases :
        zero < k.next
        → k.next < 2 ^ 64 - 4095
        → (o : List Bool) × ((load_module m s k ≡ some (added, got k binding_node o))
            ⊎ (load_module m s k ≡ some (s, record k { oracle = o })))
    unfolding load_module
    load_module_cases positive room =
        let (o, outcome) = kmalloc_cases k binding_node k.oracle in
        elim outcome [ inl e ↦ (o, inl (ground arith)) | inr e ↦ (o, inr (ground arith)) ]

  module _ (i : ℕ) (s : Modules S) (k : Kernel (Block S)) where
    pub unload_module_lem :
        (l : Loaded S) (rest : List (Loaded S))
        → take_out i s.loaded ≡ some (l, rest)
        → (l.binding == 0) ≡ false
        → is_err l.binding ≡ false
        → k.heap l.binding ≡ some binding_node
        → (k.refs l.of.owner == 0) ≡ true
        → unload_module i s k
          ≡ some (
            record { reg = unlink l.binding s.reg; loaded = rest },
            record k { heap = update k.heap l.binding none },
          )
    unfolding unload_module
    unload_module_lem l rest taken null err here free = ground arith

  module _ (s : Modules S) (k : Kernel (Block S)) (kept : IsRegistered s k) where
    pub refused-IsRegistered : (o : List Bool) → IsRegistered s (record k { oracle = o })
    refused-IsRegistered o = record {
      listed = kept.listed;
      distinct = kept.distinct;
      allocated = kept.allocated;
      owned = kept.owned;
      valid = kept.valid;
      fresh = record { next_pos = kept.fresh.next_pos; free = kept.fresh.free };
    }

    module _ (m : BindingModule S) (room : k.next < 2 ^ 64 - 4095) where
      not_used : At k.next s.loaded → ⊥
      not_used h =
          let here = kept.allocated k.next h in
          let free = kept.fresh.free k.next (omega arith) in ground arith

      pub added-IsRegistered : (o : List Bool) → IsRegistered (added m s k) (got k binding_node o)
      added-IsRegistered o = record {
        listed = ap (λ r. r ++ node (new m s k) ∷ []) kept.listed ∙ map-append s.loaded (new m s k);
        distinct = Distinct-append s.loaded (new m s k) kept.distinct not_used;
        allocated = λ p h. elim (At-append p s.loaded (new m s k) h) [
          | inl old ↦ ground (arith, kept.allocated p old)
          | inr is_new ↦ ground (arith, is_new)
        ];
        owned = λ p h. elim (Bool-cases (p == k.next)) [
          | inl e ↦
              subst (λ q. At q (s.loaded ++ new m s k ∷ [])) (ground arith)
                (At-end s.loaded (new m s k))
          | inr e ↦ At-weaken p s.loaded (new m s k) (kept.owned p (ground arith))
        ];
        valid = λ p h. elim (At-append p s.loaded (new m s k) h) [
          | inl old ↦ kept.valid p old
          | inr is_new ↦
              (λ e. omega (arith, kept.fresh.next_pos, is_new, e), ground (arith, is_new, room))
        ];
        fresh = record { next_pos = omega arith; free = λ p h. ground (arith, kept.fresh.free p) };
      }

    module _ (l : Loaded S) (rest : List (Loaded S)) (t : TakenOut s.loaded l rest) where
      pub gone-IsRegistered :
          IsRegistered
            (record { reg = unlink l.binding s.reg; loaded = rest })
            (record k { heap = update k.heap l.binding none })
      gone-IsRegistered = record {
        listed = ap (unlink l.binding) kept.listed ∙ t.unlinked;
        distinct = t.apart;
        allocated = λ p h. elim (Bool-cases (p == l.binding)) [
          | inl e ↦ absurd (t.gone (subst (λ q. At q rest) (ground arith) h))
          | inr e ↦ rw e (kept.allocated p (t.before p h))
        ];
        owned = λ p h. elim (Bool-cases (p == l.binding)) [
          | inl e ↦ absurd (ground arith)
          | inr e ↦ t.stays p (kept.owned p (ground arith)) (ground arith)
        ];
        valid = λ p h. kept.valid p (t.before p h);
        fresh = record {
          next_pos = kept.fresh.next_pos;
          free = λ p h. ground (arith, kept.fresh.free p);
        };
      }
