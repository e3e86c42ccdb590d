-- ===== src/Strings/Interned.antt =====
-- What `luaS_newlstr` of lib/lunatik/lstring.c does to the table of all strings, and what a string's
-- address says about its bytes.
use lunatik_ng.Base.{
  ℕ, zero, suc, ◌+◌, ◌-◌, ◌/◌, ◌%◌, ◌^◌, ◌<◌, ◌≡◌, ◌≢◌, ◌↔◌, ◌⊎◌, inl, inr, refl, sym, ap, ◌∙◌,
  Bool, true, false, none, some, ◌&&◌, List, ltb, leb, length, arith, Option-cases, if◌then◌else◌,
}
use mathlib.Core.Path.{subst}
use lunatik_ng.Kernel.{update}
use lunatik_ng.Strings.{
  TString, StringTable, buckets, hash_of, rehash, luas_resize, chain, crowd, newlstr, find,
  luas_newlstr,
}
use lunatik_ng.Strings.Chains.{
  In, find-some, find-none, pushed_keeps, pushed_there, pushed_from, rehash_there, rehash_from,
}

-- A string that is in one of the chains.
abbrev pub Stored : StringTable → TString → Type 0
Stored tb ts = (i : ℕ) × (i < buckets tb) × In ts (tb.hash i)

-- Each string has the hash of its bytes and is in the bucket of this hash; no two strings have the
-- same bytes, and no two the same address.
pub record IsInterned (tb : StringTable) : Type 0 where
  pub hashed :
      (ts : TString) (i : ℕ)
      → i < buckets tb
      → In ts (tb.hash i)
      → (ts.hash ≡ hash_of ts.str) × (i ≡ ts.hash % buckets tb)
  pub once : (ts ts' : TString) → Stored tb ts → Stored tb ts' → ts.str ≡ ts'.str → ts ≡ ts'
  pub apart : (ts ts' : TString) → Stored tb ts → Stored tb ts' → ts.at ≡ ts'.at → ts ≡ ts'
  pub below : (ts : TString) → Stored tb ts → ts.at < tb.next

-- A table with the same strings.
pub record Regrouped (tb tb' : StringTable) : Type 0 where
  pub interned : IsInterned tb'
  pub there : (ts : TString) → Stored tb ts → Stored tb' ts
  pub from : (ts : TString) → Stored tb' ts → Stored tb ts
  pub dead : tb'.dead ≡ tb.dead

-- `tb'` is the table `tb` with the string `str` in it, at `p`, not dead.
pub record Interns (tb : StringTable) (str : List ℕ) (p : ℕ) (tb' : StringTable) : Type 0 where
  pub interned : IsInterned tb'
  pub kept : (ts : TString) → Stored tb ts → Stored tb' ts
  pub old : (ts : TString) → Stored tb' ts → Stored tb ts ⊎ (ts.str ≡ str)
  pub found : (ts : TString) × Stored tb' ts × (ts.str ≡ str) × (ts.at ≡ p)
  pub alive : tb'.dead p ≡ false

either_way {ℓ ℓ'} :
    {A : Type ℓ} (P : A → Type ℓ') (b : Bool) {x y : A} → P x → P y → P (if b then x else y)
either_way P true p q = p
either_way P false p q = q

pow_positive : (k : ℕ) → zero < 2 ^ k
pow_positive zero = omega arith
pow_positive (suc k) = omega (arith, pow_positive k)

mod_size : (x k : ℕ) → x % (2 ^ k) < 2 ^ k
mod_size x k = omega (arith, pow_positive k)

module _ (tb : StringTable) (table : IsInterned tb) where
  same : Regrouped tb tb
  same = record { interned = table; there = λ ts h. h; from = λ ts h. h; dead = refl }

  module _ (lnewsize : ℕ) where
    abbrev resized : StringTable
    resized = record tb { hash = rehash (buckets tb) (2 ^ lnewsize) tb.hash; lsize = lnewsize }

    resized_there : (ts : TString) → Stored tb ts → Stored resized ts
    resized_there ts (i, less, h) = (
      ts.hash % (2 ^ lnewsize),
      mod_size ts.hash lnewsize,
      rehash_there (2 ^ lnewsize) (buckets tb) tb.hash ts i less h,
    )

    resized_from : (ts : TString) → Stored resized ts → Stored tb ts
    resized_from ts (j, less, h) =
        let (before, e) = rehash_from (2 ^ lnewsize) (buckets tb) tb.hash ts j h in before

    resized-Regrouped : Regrouped tb resized
    resized-Regrouped = record {
      interned = record {
        hashed = λ ts j less h.
            let ((i, old, there), e) = rehash_from (2 ^ lnewsize) (buckets tb) tb.hash ts j h in
            let (is_hash, at) = table.hashed ts i old there in (is_hash, e);
        once = λ ts ts' h h'. table.once ts ts' (resized_from ts h) (resized_from ts' h');
        apart = λ ts ts' h h'. table.apart ts ts' (resized_from ts h) (resized_from ts' h');
        below = λ ts h. table.below ts (resized_from ts h);
      };
      there = resized_there;
      from = resized_from;
      dead = refl;
    }

    pub luas_resize-Regrouped : Regrouped tb (luas_resize tb lnewsize)
    unfolding luas_resize
    luas_resize-Regrouped = either_way (Regrouped tb) tb.sweeping same resized-Regrouped

  crowd-Regrouped : Regrouped tb (crowd tb)
  unfolding crowd
  crowd-Regrouped =
      either_way (Regrouped tb) (ltb (buckets tb) tb.nuse && leb (buckets tb) ((2 ^ 31 - 3) / 2))
        (luas_resize-Regrouped (tb.lsize + 1)) same

  module _ (str : List ℕ) where
    -- A string with these bytes can only be in the chain that is searched.
    sought :
        (ts : TString) → Stored tb ts → ts.str ≡ str → In ts (tb.hash (hash_of str % buckets tb))
    sought ts (i, less, h) e =
        let (is_hash, at) = table.hashed ts i less h in
        let at' : i ≡ hash_of str % buckets tb =
          at ∙ ap (λ x. x % buckets tb) (is_hash ∙ ap hash_of e) in
        subst (λ x. In ts (tb.hash x)) at' h

    found-Interns :
        (p : ℕ)
        → find str (tb.hash (hash_of str % buckets tb)) ≡ some p
        → Interns tb str p (record tb { dead = update tb.dead p false })
    found-Interns p e =
        let (ts, here, is_str, at) = find-some str (tb.hash (hash_of str % buckets tb)) p e in
        record {
          interned = record {
            hashed = table.hashed;
            once = table.once;
            apart = table.apart;
            below = table.below;
          };
          kept = λ ts h. h;
          old = λ ts h. inl h;
          found =
              (ts, (hash_of str % buckets tb, mod_size (hash_of str) tb.lsize, here), is_str, at);
          alive = ground arith;
        }

    module _ (missing : find str (tb.hash (hash_of str % buckets tb)) ≡ none) where
      abbrev new : TString
      new = record { at = tb.next; str = str; hash = hash_of str }

      abbrev chained : StringTable
      chained = chain tb new

      other_bytes : (ts : TString) → Stored tb ts → ts.str ≢ str
      other_bytes ts h e =
          find-none str (tb.hash (hash_of str % buckets tb)) ts missing (sought ts h e) e

      chained_there : (ts : TString) → Stored tb ts → Stored chained ts
      unfolding chain
      chained_there ts (i, less, h) =
          (i, less, pushed_keeps tb.hash (hash_of str % buckets tb) new ts i h)

      chained_new : Stored chained new
      unfolding chain
      chained_new = (
        hash_of str % buckets tb,
        mod_size (hash_of str) tb.lsize,
        pushed_there tb.hash (hash_of str % buckets tb) new,
      )

      chained_from : (ts : TString) → Stored chained ts → Stored tb ts ⊎ (new ≡ ts)
      unfolding chain
      chained_from ts (i, less, h) =
          elim (pushed_from tb.hash (hash_of str % buckets tb) new ts i h) [
            | inl old ↦ inl (i, less, old)
            | inr (e, at) ↦ inr e
          ]

      chained-IsInterned : IsInterned chained
      unfolding chain
      chained-IsInterned = record {
        hashed = λ ts i less h. elim (pushed_from tb.hash (hash_of str % buckets tb) new ts i h) [
          | inl old ↦ table.hashed ts i less old
          | inr (e, at) ↦
              subst (λ x. (x.hash ≡ hash_of x.str) × (i ≡ x.hash % buckets tb)) e (refl, at)
        ];
        once = λ ts ts' h h' e. elim (chained_from ts h) [
          | inl old ↦ elim (chained_from ts' h') [
            | inl old' ↦ table.once ts ts' old old' e
            | inr is_new' ↦ absurd (other_bytes ts old (e ∙ sym (ap (λ x. x.str) is_new')))
          ]
          | inr is_new ↦ elim (chained_from ts' h') [
            | inl old' ↦ absurd (other_bytes ts' old' (sym e ∙ sym (ap (λ x. x.str) is_new)))
            | inr is_new' ↦ sym is_new ∙ is_new'
          ]
        ];
        apart = λ ts ts' h h' e. elim (chained_from ts h) [
          | inl old ↦ elim (chained_from ts' h') [
            | inl old' ↦ table.apart ts ts' old old' e
            | inr is_new' ↦ absurd (omega (arith, table.below ts old, e, ap (λ x. x.at) is_new'))
          ]
          | inr is_new ↦ elim (chained_from ts' h') [
            | inl old' ↦ absurd (omega (arith, table.below ts' old', e, ap (λ x. x.at) is_new))
            | inr is_new' ↦ sym is_new ∙ is_new'
          ]
        ];
        below = λ ts h. elim (chained_from ts h) [
          | inl old ↦ omega (arith, table.below ts old)
          | inr is_new ↦ omega (arith, ap (λ x. x.at) is_new)
        ];
      }

      chained_dead : chained.dead tb.next ≡ false
      unfolding chain
      chained_dead = ground arith

      grown-Interns : (tb' : StringTable) → Regrouped chained tb' → Interns tb str tb.next tb'
      grown-Interns tb' grown = record {
        interned = grown.interned;
        kept = λ ts h. grown.there ts (chained_there ts h);
        old = λ ts h. elim (chained_from ts (grown.from ts h)) [
          | inl old ↦ inl old
          | inr is_new ↦ inr (sym (ap (λ x. x.str) is_new))
        ];
        found = (new, grown.there new chained_new, refl, refl);
        alive = ap (λ d. d tb.next) grown.dead ∙ chained_dead;
      }

module _ (tb : StringTable) (table : IsInterned tb) (str : List ℕ) where
  stored_or_new :
      (p : ℕ) (tb' : StringTable) → luas_newlstr tb str ≡ some (p, tb') → Interns tb str p tb'
  unfolding luas_newlstr newlstr
  stored_or_new p tb' e = elim (Option-cases (find str (tb.hash (hash_of str % buckets tb)))) [
    | inl missing ↦
        let before = chained tb table str missing in
        let at : tb.next ≡ p = ground arith in
        let is_tb : crowd before ≡ tb' = ground arith in
        subst (λ x. Interns tb str x tb') at
          (grown-Interns tb table str missing tb' (
            subst (Regrouped before) is_tb
              (crowd-Regrouped before (chained-IsInterned tb table str missing))))
    | inr (q, hit) ↦
        let at : q ≡ p = ground arith in
        let is_tb : record tb { dead = update tb.dead q false } ≡ tb' = ground arith in
        subst (λ x. Interns tb str x tb') at
          (subst (Interns tb str q) is_tb (found-Interns tb table str q hit))
  ]

  returned :
      length str < 2 ^ 64 - 27
      → (p : ℕ) × (tb' : StringTable) × (luas_newlstr tb str ≡ some (p, tb'))
  unfolding luas_newlstr newlstr
  returned short = elim (Option-cases (find str (tb.hash (hash_of str % buckets tb)))) [
    | inl missing ↦ (tb.next, crowd (chained tb table str missing), ground arith)
    | inr (p, hit) ↦ (p, record tb { dead = update tb.dead p false }, ground arith)
  ]

  -- To intern a string of a length that can be allocated returns an address. The string is stored at
  -- this address and not garbage, the strings that were stored still are, at their addresses, no other
  -- string is new, and the table has each string once, in the bucket of its hash.
  pub luas_newlstr-Interns :
      length str < 2 ^ 64 - 27
      → (p : ℕ) × (tb' : StringTable) × (luas_newlstr tb str ≡ some (p, tb')) × Interns tb str p tb'
  luas_newlstr-Interns short =
      let (p, tb', e) = returned short in (p, tb', e, stored_or_new p tb' e)

-- Later states of the table, when strings are interned and its size changes.
pub data Later : StringTable → StringTable → Type 0 where
  now : {tb : StringTable} → Later tb tb
  interns :
      {tb tb' tb'' : StringTable} {p : ℕ} (str : List ℕ)
      → luas_newlstr tb str ≡ some (p, tb')
      → Later tb' tb''
      → Later tb tb''
  resizes :
      {tb tb' : StringTable} (lnewsize : ℕ) → Later (luas_resize tb lnewsize) tb' → Later tb tb'

later :
    {tb tb' : StringTable}
    → IsInterned tb
    → Later tb tb'
    → IsInterned tb' × ((ts : TString) → Stored tb ts → Stored tb' ts)
later table now = (table, λ ts h. h)
later table (interns {tb} {tb'} {p = p} str e rest) =
    let step = stored_or_new tb table str p tb' e in
    let (table'', kept) = later step.interned rest in (table'', λ ts h. kept ts (step.kept ts h))
later table (resizes {tb} n rest) =
    let step = luas_resize-Regrouped tb table n in
    let (table'', kept) = later step.interned rest in (table'', λ ts h. kept ts (step.there ts h))

-- When a string is interned, then other strings are and the size of the table changes, and then a
-- string is interned again, the two addresses are the same if and only if the bytes are.
pub luas_newlstr_same :
    (tb tb₁ tb₂ tb₃ : StringTable) (str str' : List ℕ) (p q : ℕ)
    → IsInterned tb
    → luas_newlstr tb str ≡ some (p, tb₁)
    → Later tb₁ tb₂
    → luas_newlstr tb₂ str' ≡ some (q, tb₃)
    → (p ≡ q) ↔ (str ≡ str')
luas_newlstr_same tb tb₁ tb₂ tb₃ str str' p q table e between e' =
    let first = stored_or_new tb table str p tb₁ e in
    let (table₂, kept) = later first.interned between in
    let second = stored_or_new tb₂ table₂ str' q tb₃ e' in
    let (ts, at, is_str, is_p) = first.found in
    let (ts', at', is_str', is_q) = second.found in
    let at₃ = second.kept ts (kept ts at) in
    (
      λ same.
          sym is_str
          ∙ ap (λ x. x.str) (second.interned.apart ts ts' at₃ at' (is_p ∙ same ∙ sym is_q))
          ∙ is_str',
      λ same.
          sym is_p
          ∙ ap (λ x. x.at) (second.interned.once ts ts' at₃ at' (is_str ∙ same ∙ sym is_str'))
          ∙ is_q,
    )
