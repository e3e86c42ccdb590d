-- ===== src/Chunk/Unstripped.antt =====
-- A dump of ldump.c that is not stripped loses nothing, if all functions have a source.
use lunatik_ng.Base.{
  ℕ, ◌≡◌, refl, sym, ap, ◌∙◌, true, false, none, some, List, [], ◌∷◌, ◌++◌, ◌==◌, ==_iff,
  Bool-cases, inl, inr, arith,
}
use mathlib.Core.Path.{subst}
use lunatik_ng.Zio.{Zio}
use lunatik_ng.Zio.Stream.{contents, IsInSync}
use lunatik_ng.Chunk.{Str, Fields, Proto, proto, Protos, no_more, next, same_bytes}
use lunatik_ng.Chunk.Dump.{luau_dump}
use lunatik_ng.Chunk.Load.{ok, luau_undump}
use lunatik_ng.Chunk.RoundTrip.{
  loaded, loaded_protos, loaded_source, loaded_fields, FitsIn, Passes, no_source, collect,
  luau_undump-luau_dump,
}

-- The source is not NULL.
abbrev IsNamed : Str → Type 0
IsNamed none = ⊥
IsNamed (some s) = Unit

-- All functions have a source.
unfoldable mutual
  pub HasSource : Proto → Type 0
  HasSource (proto f fs) = IsNamed f.source × AllHaveSource fs

  pub AllHaveSource : Protos → Type 0
  AllHaveSource no_more = Unit
  AllHaveSource (next f fs) = HasSource f × AllHaveSource fs

pub same_bytes-eq : (xs ys : List ℕ) → same_bytes xs ys ≡ true → xs ≡ ys
same_bytes-eq [] [] h = refl
same_bytes-eq [] (y ∷ ys) h = ground arith
same_bytes-eq (x ∷ xs) [] h = ground arith
same_bytes-eq (x ∷ xs) (y ∷ ys) h = elim (Bool-cases (x == y)) [
  | inl e ↦
      let rest : same_bytes xs ys ≡ true = rw (e) at h in
      let here : x ≡ y = (==_iff x y).0 e in rw (here, same_bytes-eq xs ys rest)
  | inr e ↦ ground arith
]

-- The parent has no source, or the same on both sides.
abbrev Agree : Str → Str → Type 0
Agree none q = Unit
Agree (some p) q = some p ≡ q

loaded_source-kept : (s p q : Str) → IsNamed s → Agree p q → loaded_source false s p q ≡ s
loaded_source-kept none p q named h = elim named [ ]
loaded_source-kept (some s) none q named h = refl
loaded_source-kept (some s) (some p) q named h = elim (Bool-cases (same_bytes s p)) [
  | inl e ↦ rw (e) (sym h ∙ ap some (sym (same_bytes-eq s p e)))
  | inr e ↦ rw (e)
]

Agree-sym : (s t : Str) → s ≡ t → Agree t s
Agree-sym s none e = tt
Agree-sym s (some t) e = sym e

same_proto :
    (f : Fields) (fs gs : Protos) (s : Str)
    → s ≡ f.source
    → gs ≡ fs
    → proto (loaded_fields false f s) gs ≡ proto f fs
same_proto f fs gs s e inner = rw (e, inner)

mutual
  unfolding loaded HasSource

  loaded-kept : (f : Proto) (p q : Str) → HasSource f → Agree p q → loaded false p q f ≡ f
  loaded-kept (proto f fs) p q (named, all_named) h =
      let s = loaded_source false f.source p q in
      let kept = loaded_source-kept f.source p q named h in
      same_proto f fs _ s kept
        (loaded_protos-kept fs f.source s all_named (Agree-sym s f.source kept))

  loaded_protos-kept :
      (fs : Protos) (p q : Str) → AllHaveSource fs → Agree p q → loaded_protos false p q fs ≡ fs
  loaded_protos-kept no_more p q all_named h = refl
  loaded_protos-kept (next f fs) p q (named, all_named) h =
      rw (loaded-kept f p q named h, loaded_protos-kept fs p q all_named h)

-- A function whose functions all have a source comes back from an unstripped dump as it was. Its
-- numbers and lengths have the widths of their types, its functions are nested at most `room` deep,
-- the verifier accepts them all, and the stream starts with the bytes of the dump.
pub luau_undump-luau_dump_unstripped :
    (f : Proto) (room : ℕ) (z : Zio) (rest : List ℕ)
    → HasSource f
    → FitsIn room f
    → Passes f
    → IsInSync z
    → contents z ≡ (luau_dump f collect [] false).1 ++ rest
    → (z' : Zio) × (luau_undump room z ≡ ok f z') × (contents z' ≡ rest) × IsInSync z'
luau_undump-luau_dump_unstripped f room z rest named fits passes sync e =
    let kept = loaded-kept f none no_source named tt in
    let (z', read, left, sync') =
      luau_undump-luau_dump f false room z rest fits (subst Passes (sym kept) passes) sync e in
    (z', read ∙ ap (λ g. ok g z') kept, left, sync')
