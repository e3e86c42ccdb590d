-- ===== src/Runtime/Result/Blocks.antt =====
-- The blocks of a result of lib/lunatik/lunatik.c, from `lunatik_result_get` to `lunatik_result_free`.
use lunatik_ng.Base.{
  ℕ, ◌+◌, ◌≤◌, ◌<◌, ◌≡◌, ◌≢◌, refl, sym, ◌∙◌, Option, none, some, List, [], ◌∷◌, ◌++◌, ℤ, arith,
  length, take,
}
use mathlib.Core.Path.{subst}
use lunatik_ng.Kernel.{Kernel, IsFresh, Returns, Returns_intro, update}
use lunatik_ng.Runtime.{
  Value, nil, number, boolean, light_userdata, string, userdata, lua_type, Block, bytes, result,
  LunatikResult, Payload, zeroed, r_number, r_boolean, r_string, r_userdata, r_lightuserdata,
}
use lunatik_ng.Runtime.Result.{lunatik_result_get, lunatik_result_free}
use lunatik_ng.Runtime.Result.Ownership.{NameFits}

abbrev pub IsNoPart : Payload → ℕ → Type 0
IsNoPart (r_string p n) q = q ≢ p
IsNoPart (r_userdata p n t) q = (q ≢ p) × (q ≢ t)
IsNoPart _ q = Unit

-- The union of the result of a value, if its blocks are allocated one after the other.
abbrev payload_of : (r : ℕ) → Value → Payload
payload_of r nil = zeroed
payload_of r (number n) = r_number n
payload_of r (boolean b) = r_boolean b
payload_of r (string s) = r_string (r + 1) (length s)
payload_of r (userdata bs name) = r_userdata (r + 1) (length bs) (r + 1 + 1)
payload_of r (light_userdata p) = r_lightuserdata p
payload_of r _ = zeroed

module _ {S : Type 0} where
  -- The blocks that the payload of the result at `r` points to lie behind it.
  abbrev pub Parts : (ℕ → Option (Block S)) → (r type : ℕ) → Payload → Type 0
  Parts heap r type zeroed = (type ≢ 7) × (type ≢ 4)
  Parts heap r type (r_string p n) = (r < p) × ((bs : List ℕ) × (heap p ≡ some (bytes bs)))
  Parts heap r type (r_userdata p n t) =
      (r < p)
      × (p < t)
      × ((bs : List ℕ) × (heap p ≡ some (bytes bs)))
      × ((name : List ℕ) × (heap t ≡ some (bytes name)))
  Parts heap r type _ = Unit

  -- From the address `r` on there are a result and its parts, and nothing else.
  pub record ResultAt (r : ℕ) (heap : ℕ → Option (Block S)) : Type 0 where
    pub res : LunatikResult
    pub here : heap r ≡ some (result res)
    pub parts : Parts heap r res.r_type res.payload
    pub rest : (q : ℕ) → r < q → IsNoPart res.payload q → heap q ≡ none

  -- The result has been taken: it is at the first address that was free, and what is below is as it was.
  pub record Got (k : Kernel (Block S)) (r : ℕ) (k' : Kernel (Block S)) : Type 0 where
    pub place : r ≡ k.next
    pub at : ResultAt r k'.heap
    pub below : (q : ℕ) → q < r → k'.heap q ≡ k.heap q
    pub queue : k'.queue ≡ k.queue
    pub workqueues : k'.workqueues ≡ k.workqueues

  module _ (k : Kernel (Block S)) (fresh : IsFresh k) (all : k.oracle ≡ []) where
    abbrev stored : Value → Payload → Kernel (Block S) → Kernel (Block S)
    stored v p k' = record k' {
      heap = update k'.heap k.next (some (result (record { r_type = lua_type v; payload = p })));
    }

    abbrev blank : Value → Kernel (Block S)
    blank v = stored v zeroed (record k {
      heap = update k.heap k.next (some (result (record { r_type = 0; payload = zeroed })));
      next = k.next + 1;
    })

    -- The kernel for a string, and for a userdata with the name of its type.
    abbrev with_string : List ℕ → Kernel (Block S)
    with_string s = stored (string s) (payload_of k.next (string s)) (record (blank (string s)) {
      heap = update (blank (string s)).heap (k.next + 1) (some (bytes (s ++ 0 ∷ [])));
      next = k.next + 1 + 1;
    })

    abbrev with_userdata : List ℕ → Option (List ℕ) → (name : List ℕ) → Kernel (Block S)
    with_userdata bs field name =
        let b = blank (userdata bs field) in
        stored (userdata bs field) (payload_of k.next (userdata bs field)) (record b {
          heap =
              update
                (update (update b.heap (k.next + 1) (some (bytes bs))) (k.next + 1 + 1)
                  (some (bytes [])))
                (k.next + 1 + 1) (some (bytes name));
          next = k.next + 1 + 1 + 1;
        })

    string_lem :
        (g : ℕ) (s : List ℕ) (e : ℤ)
        → lunatik_result_get g (string s) e k ≡ some ((k.next, e), with_string s)
    unfolding lunatik_result_get
    string_lem g s e = let pos = fresh.next_pos in ground arith

    named_lem :
        (g : ℕ) (bs name : List ℕ) (e : ℤ)
        → lunatik_result_get g (userdata bs (some name)) e k
          ≡ some (
            (k.next, e),
            with_userdata bs (some name) (take (length name) (name ++ 0 ∷ []) ++ 0 ∷ []),
          )
    unfolding lunatik_result_get
    named_lem g bs name e = let pos = fresh.next_pos in ground arith

    nameless_lem :
        (g : ℕ) (bs : List ℕ) (e : ℤ)
        → g ≤ 1
        → lunatik_result_get g (userdata bs none) e k
          ≡ some ((k.next, e), with_userdata bs none (take g ([] ++ 0 ∷ []) ++ 0 ∷ []))
    unfolding lunatik_result_get
    nameless_lem g bs e fits = let pos = fresh.next_pos in ground arith

    string-Got : (s : List ℕ) → Got k k.next (with_string s)
    string-Got s = record {
      place = refl;
      at = record {
        res = record { r_type = 4; payload = payload_of k.next (string s) };
        here = ground arith;
        parts = (omega arith, (s ++ 0 ∷ [], ground arith));
        rest = λ q h n. ground (arith, fresh.free q);
      };
      below = λ q h. ground arith;
      queue = refl;
      workqueues = refl;
    }

    userdata-Got :
        (bs : List ℕ) (field : Option (List ℕ)) (name : List ℕ)
        → Got k k.next (with_userdata bs field name)
    userdata-Got bs field name = record {
      place = refl;
      at = record {
        res = record { r_type = 7; payload = payload_of k.next (userdata bs field) };
        here = ground arith;
        parts = (omega arith, omega arith, (bs, ground arith), (name, ground arith));
        rest = λ q h n. ground (arith, fresh.free q);
      };
      below = λ q h. ground arith;
      queue = refl;
      workqueues = refl;
    }

    pub lunatik_result_get-Got :
        (g : ℕ) (v : Value) (e : ℤ)
        → NameFits g v
        → Returns (lunatik_result_get g v e k) (λ o k'. Got k o.0 k')
    unfolding lunatik_result_get
    lunatik_result_get-Got g (string s) e fits =
        subst (λ r. Returns r (λ o k'. Got k o.0 k')) (sym (string_lem g s e)) (string-Got s)
    lunatik_result_get-Got g (userdata bs none) e fits =
        subst (λ r. Returns r (λ o k'. Got k o.0 k')) (sym (nameless_lem g bs e fits))
          (userdata-Got bs none _)
    lunatik_result_get-Got g (userdata bs (some name)) e fits =
        subst (λ r. Returns r (λ o k'. Got k o.0 k')) (sym (named_lem g bs name e))
          (userdata-Got bs (some name) _)
    lunatik_result_get-Got g v e fits =
        Returns_intro (lunatik_result_get g v e k) {P = λ o k'. Got k o.0 k'}
          (λ z. let pos = fresh.next_pos in ground arith)
          λ o k' z.
            let pos = fresh.next_pos in
            record {
              place = ground arith;
              at = record {
                res = record { r_type = lua_type v; payload = payload_of k.next v };
                here = ground arith;
                parts = ground arith;
                rest = λ q h n. ground (arith, fresh.free q);
              };
              below = λ q h. ground arith;
              queue = ground arith;
              workqueues = ground arith;
            }

  -- From `r` on nothing is left, and what is below is as it was.
  pub record Freed (r : ℕ) (k k' : Kernel (Block S)) : Type 0 where
    pub gone : (q : ℕ) → r ≤ q → k'.heap q ≡ none
    pub below : (q : ℕ) → q < r → k'.heap q ≡ k.heap q
    pub queue : k'.queue ≡ k.queue
    pub workqueues : k'.workqueues ≡ k.workqueues

  free_by :
      (payload : Payload) (type r : ℕ) (k : Kernel (Block S))
      → 0 < r
      → k.heap r ≡ some (result (record { r_type = type; payload = payload }))
      → Parts k.heap r type payload
      → ((q : ℕ) → r < q → IsNoPart payload q → k.heap q ≡ none)
      → Returns (lunatik_result_free r k) (λ _ k'. Freed r k k')
  unfolding lunatik_result_free
  free_by (r_string p n) type r k pos here (lt, (bs, there)) rest =
      Returns_intro (lunatik_result_free r k) {P = λ _ k'. Freed r k k'} (λ z. ground arith)
        λ o k' z. record {
          gone = λ q h. ground (arith, rest q);
          below = λ q h. ground arith;
          queue = ground arith;
          workqueues = ground arith;
        }
  free_by (r_userdata p n t) type r k pos here (lt, lt', (bs, there), (name, there')) rest =
      Returns_intro (lunatik_result_free r k) {P = λ _ k'. Freed r k k'} (λ z. ground arith)
        λ o k' z. record {
          gone = λ q h. ground (arith, rest q);
          below = λ q h. ground arith;
          queue = ground arith;
          workqueues = ground arith;
        }
  free_by zeroed type r k pos here parts rest =
      Returns_intro (lunatik_result_free r k) {P = λ _ k'. Freed r k k'} (λ z. ground arith)
        λ o k' z. record {
          gone = λ q h. ground (arith, rest q);
          below = λ q h. ground arith;
          queue = ground arith;
          workqueues = ground arith;
        }
  free_by other type r k pos here parts rest =
      Returns_intro (lunatik_result_free r k) {P = λ _ k'. Freed r k k'} (λ z. ground arith)
        λ o k' z. record {
          gone = λ q h. ground (arith, rest q);
          below = λ q h. ground arith;
          queue = ground arith;
          workqueues = ground arith;
        }

  pub lunatik_result_free-Freed :
      (r : ℕ) (k : Kernel (Block S))
      → 0 < r
      → ResultAt r k.heap
      → Returns (lunatik_result_free r k) (λ _ k'. Freed r k k')
  lunatik_result_free-Freed r k pos at =
      free_by at.res.payload at.res.r_type r k pos at.here at.parts at.rest

  Parts-same :
      (r : ℕ) (heap heap' : ℕ → Option (Block S)) (type : ℕ) (payload : Payload)
      → ((q : ℕ) → r ≤ q → heap' q ≡ heap q)
      → Parts heap r type payload
      → Parts heap' r type payload
  Parts-same r heap heap' type (r_string p n) same (lt, (bs, there)) =
      (lt, (bs, same p (omega arith) ∙ there))
  Parts-same r heap heap' type (r_userdata p n t) same (lt, lt', (bs, there), (name, there')) = (
    lt,
    lt',
    (bs, same p (omega arith) ∙ there),
    (name, same t (omega (arith, lt, lt')) ∙ there'),
  )
  Parts-same r heap heap' type zeroed same parts = parts
  Parts-same r heap heap' type other same parts = parts

  pub ResultAt-same :
      (r : ℕ) (heap heap' : ℕ → Option (Block S))
      → ((q : ℕ) → r ≤ q → heap' q ≡ heap q)
      → ResultAt r heap
      → ResultAt r heap'
  ResultAt-same r heap heap' same at = record {
    res = at.res;
    here = same r (omega arith) ∙ at.here;
    parts = Parts-same r heap heap' at.res.r_type at.res.payload same at.parts;
    rest = λ q h n. same q (omega arith) ∙ at.rest q h n;
  }
