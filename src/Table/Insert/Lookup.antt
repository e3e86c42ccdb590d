-- ===== src/Table/Insert/Lookup.antt =====
-- The searches of lib/lunatik/ltable.c find each key that a table has.
use lunatik_ng.Base.{
  ℕ, zero, suc, ◌<◌, ◌≡◌, refl, Bool, true, false, Option, some, ℤ, pos, negsuc, ltb, length, arith,
  Bool-cases, inl, inr, ==_refl,
}
use lunatik_ng.Table.{
  TValue, nil, boolean, light_userdata, number, string, object, Node, Table, sizenode, mainposition,
  Place, in_node, search, is_number, is_string, is_int, same_number, same_boolean, luao_rawequalobj,
  luah_get, luah_getnum, luah_getstr,
}
use lunatik_ng.Table.Insert.Chains.{HasKey}
use lunatik_ng.Table.Insert.Finds.{Leads, arrived, step}
use lunatik_ng.Table.Insert.Keeps.{IsTable}

-- A node that passes the test is found.
abbrev Finds : (TValue → Bool) → (ℕ → Node) → Option Place → Type 0
Finds test node o = (j : ℕ) × (o ≡ some (in_node j)) × (test (node j).i_key ≡ true)

search-Finds :
    (test : TValue → Bool) (node : ℕ → Node) (fuel : ℕ) {s i j : ℕ}
    → Leads node s i j
    → test (node j).i_key ≡ true
    → s < fuel
    → Finds test node (search fuel test node i)
unfolding search
search-Finds test node zero path hit lt = absurd (omega arith)
search-Finds test node (suc fuel) (arrived {i}) hit lt = (i, ground arith, hit)
search-Finds test node (suc fuel) (step {s} {i} {k} e r) hit lt =
    elim (Bool-cases (test (node i).i_key)) [
      | inl now ↦ (i, ground arith, now)
      | inr later ↦
          let (j, found, passes) = search-Finds test node fuel r hit (omega arith) in
          (j, ground (arith, found), passes)
    ]

same_number_refl : (n : ℤ) → same_number n n ≡ true
same_number_refl (pos n) = ground arith
same_number_refl (negsuc n) = ground arith

same_boolean_refl : (b : Bool) → same_boolean b b ≡ true
same_boolean_refl true = refl
same_boolean_refl false = refl

rawequal_refl : (v : TValue) → luao_rawequalobj v v ≡ true
unfolding luao_rawequalobj
rawequal_refl nil = refl
rawequal_refl (boolean b) = same_boolean_refl b
rawequal_refl (light_userdata p) = ==_refl p
rawequal_refl (number n) = same_number_refl n
rawequal_refl (string p h) = ==_refl p
rawequal_refl (object p tt') = ground arith

-- The key is an index of the array part.
abbrev pub in_array_part : Table → TValue → Bool
in_array_part t (number (pos (suc k))) = ltb k (length t.array)
in_array_part t _ = false

is_number_lem : (n : ℤ) (v : TValue) → is_number n v ≡ true → luao_rawequalobj v (number n) ≡ true
unfolding luao_rawequalobj
is_number_lem n (number m) h = h
is_number_lem n nil h = ground arith
is_number_lem n (boolean b) h = ground arith
is_number_lem n (light_userdata p) h = ground arith
is_number_lem n (string p h') h = ground arith
is_number_lem n (object p tt') h = ground arith

is_string_lem :
    (p h : ℕ) (v : TValue) → is_string p v ≡ true → luao_rawequalobj v (string p h) ≡ true
unfolding luao_rawequalobj
is_string_lem p h (string q h') e = e
is_string_lem p h nil e = ground arith
is_string_lem p h (boolean b) e = ground arith
is_string_lem p h (light_userdata q) e = ground arith
is_string_lem p h (number m) e = ground arith
is_string_lem p h (object q tt') e = ground arith

-- The place is the value of a node of `t` whose key equals `key`.
abbrev pub EqualKey : Table → TValue → Option Place → Type 0
EqualKey t key o = (j : ℕ) × (o ≡ some (in_node j)) × (luao_rawequalobj (t.node j).i_key key ≡ true)

module _ (t : Table) (ok : IsTable t) where
  finds :
      (test : TValue → Bool) (j : ℕ)
      → HasKey (t.node j)
      → test (t.node j).i_key ≡ true
      → Finds test t.node (search (sizenode t) test t.node (mainposition t (t.node j).i_key))
  finds test j keyed hit =
      let (s, lt, path) = ok.short j keyed in search-Finds test t.node (sizenode t) path hit lt

  -- The search from the main position of a key, with a test that the key passes.
  finds_key :
      (test : TValue → Bool) (j : ℕ) (key : TValue)
      → (t.node j).i_key ≡ key
      → HasKey (t.node j)
      → test key ≡ true
      → ((v : TValue) → test v ≡ true → luao_rawequalobj v key ≡ true)
      → EqualKey t key (search (sizenode t) test t.node (mainposition t key))
  finds_key test j key is_key keyed hit equal =
      let (j', found, passes) = finds test j keyed (rw is_key hit) in
      (j', rw⁻¹ is_key found, equal (t.node j').i_key passes)

  finds_raw :
      (j : ℕ) (key : TValue)
      → (t.node j).i_key ≡ key
      → HasKey (t.node j)
      → EqualKey t key
          (search (sizenode t) (λ k. luao_rawequalobj k key) t.node (mainposition t key))
  finds_raw j key is_key keyed =
      finds_key (λ k. luao_rawequalobj k key) j key is_key keyed (rawequal_refl key) (λ v h. h)

  finds_number :
      (j : ℕ) (n : ℤ)
      → (t.node j).i_key ≡ number n
      → HasKey (t.node j)
      → in_array_part t (number n) ≡ false
      → EqualKey t (number n) (luah_getnum t n)
  unfolding luah_getnum mainposition
  finds_number j (pos (suc k)) is_key keyed elsewhere = rw elsewhere (
      finds_key (is_number (pos (suc k))) j (number (pos (suc k))) is_key keyed
        (same_number_refl (pos (suc k))) (is_number_lem (pos (suc k))))
  finds_number j (pos zero) is_key keyed elsewhere =
      finds_key (is_number (pos zero)) j (number (pos zero)) is_key keyed
        (same_number_refl (pos zero)) (is_number_lem (pos zero))
  finds_number j (negsuc k) is_key keyed elsewhere =
      finds_key (is_number (negsuc k)) j (number (negsuc k)) is_key keyed
        (same_number_refl (negsuc k)) (is_number_lem (negsuc k))

  -- `luaH_get` finds each key that a node of the table has, unless the key belongs to the array part: it
  -- returns the value of a node with an equal key. The chains of the table are whole and shorter
  -- than the number of nodes.
  pub luah_get-EqualKey :
      (j : ℕ) (key : TValue)
      → (t.node j).i_key ≡ key
      → HasKey (t.node j)
      → in_array_part t key ≡ false
      → EqualKey t key (luah_get t key)
  unfolding luah_get luah_getstr mainposition
  luah_get-EqualKey j nil is_key keyed elsewhere = absurd (ground arith)
  luah_get-EqualKey j (boolean b) is_key keyed elsewhere = finds_raw j (boolean b) is_key keyed
  luah_get-EqualKey j (light_userdata p) is_key keyed elsewhere =
      finds_raw j (light_userdata p) is_key keyed
  luah_get-EqualKey j (object p tt') is_key keyed elsewhere =
      finds_raw j (object p tt') is_key keyed
  luah_get-EqualKey j (string p h) is_key keyed elsewhere =
      finds_key (is_string p) j (string p h) is_key keyed (==_refl p) (is_string_lem p h)
  luah_get-EqualKey j (number n) is_key keyed elsewhere = elim (Bool-cases (is_int n)) [
    | inl e ↦ rw e (finds_number j n is_key keyed elsewhere)
    | inr e ↦ rw e (finds_raw j (number n) is_key keyed)
  ]
