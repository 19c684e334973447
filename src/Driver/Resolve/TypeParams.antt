-- ===== src/Driver/Resolve/TypeParams.antt =====
-- `insert_generic_types` of liquid-rust-driver/src/resolve.rs: its assertion holds, and every type
-- parameter of the function and of its parent can be looked up behind it.
use liquid_rust.Base.{
  false, List, [], ◌∷◌, Option, none, some, ◌≡◌, ◌≢◌, refl, ◌∙◌, subst, ◌⊎◌, inl, inr, All,
  ℕ_discrete,
}
use liquid_rust.Typeck.Ty.{DefId, ParamTy, Symbol}
use liquid_rust.Driver.Hir as Hir
use liquid_rust.Driver.ScopeMap.{IsScopeMap}
use liquid_rust.Driver.Subst.{Subst, insert_type, empty, push_type_layer}
use liquid_rust.Driver.Resolve.{Setting}
use liquid_rust.Driver.Resolve.Signature.{insert_generic_types, insert_parent_types}

-- The definitions of the type parameters.
abbrev pub dids : List Hir.GenericParam → List DefId
dids [] = []
dids (Hir.GenericParam.type did _ ∷ generics) = did ∷ dids generics
dids (Hir.GenericParam.other ∷ generics) = dids generics

abbrev pub Member : DefId → List DefId → Type 0
Member did [] = ⊥
Member did (d ∷ ds) = (d ≡ did) ⊎ Member did ds

abbrev pub Distinct : List DefId → Type 0
Distinct [] = Unit
Distinct (d ∷ ds) = All (λ d'. d ≢ d') ds × Distinct ds

abbrev pub parent_dids : Option Hir.Impl → List DefId
parent_dids none = []
parent_dids (some parent) = dids parent.generics

module _ {E T : Type 0} (c : Setting E T) (laws : IsScopeMap c.types) where
  abbrev pub Known : Subst E T → DefId → Type 0
  Known s did = (p : ParamTy) × (c.types.get s.types did ≡ some p)

  -- What is left of the old maps, and what is new.
  pub record Inserted (ds : List DefId) (s s' : Subst E T) : Type 0 where
    pub exprs : s'.exprs ≡ s.exprs
    pub regions : s'.regions ≡ s.regions
    pub old_types : (did : DefId) → Known s did → Known s' did
    pub new_types : (did : DefId) → Member did ds → Known s' did

  NotAtTop : Subst E T → List DefId → Type 0
  NotAtTop s ds = All (λ d. c.types.contains_key_at_top s.types d ≡ false) ds

  module _ (did : DefId) (name : Symbol) (s : Subst E T) where
    abbrev typed : Subst E T
    typed = record s {
      types = c.types.define s.types did (record { index = c.types.len s.types; name = name });
    }

    typed-NotAtTop : (ds : List DefId) → All (λ d. did ≢ d) ds → NotAtTop s ds → NotAtTop typed ds
    unfolding NotAtTop
    typed-NotAtTop [] n h = tt
    typed-NotAtTop (d ∷ ds) (n, ns) (h, hs) =
        (laws.at_top_define_other s.types did d _ n ∙ h, typed-NotAtTop ds ns hs)

    typed-Known : Known typed did
    typed-Known = (_, laws.get_define s.types did _)

    typed-Known_old : (d : DefId) → Known s d → Known typed d
    typed-Known_old d (p, h) = elim (ℕ_discrete did d) [
      | yes e ↦ subst (Known typed) e typed-Known
      | no n ↦ (p, laws.get_define_other s.types did d _ n ∙ h)
    ]

    insert_type_lem :
        c.types.contains_key_at_top s.types did ≡ false
        → insert_type c.exprs c.types did name s ≡ some typed
    insert_type_lem h = rw (h, insert_type) refl

  insert_generic_types-Inserted :
      (generics : List Hir.GenericParam) (s : Subst E T)
      → Distinct (dids generics)
      → NotAtTop s (dids generics)
      → (s' : Subst E T) × (insert_generic_types c generics s ≡ some s')
        × Inserted (dids generics) s s'
  unfolding insert_generic_types NotAtTop
  insert_generic_types-Inserted [] s d h = (
    s,
    refl,
    record {
      exprs = refl;
      regions = refl;
      old_types = λ did k. k;
      new_types = λ did m. elim m [ ];
    },
  )
  insert_generic_types-Inserted (Hir.GenericParam.other ∷ generics) s d h =
      insert_generic_types-Inserted generics s d h
  insert_generic_types-Inserted (Hir.GenericParam.type did name ∷ generics) s (n, d) (t, h) =
      let (s', e, i) =
        insert_generic_types-Inserted generics (typed did name s) d
          (typed-NotAtTop did name s (dids generics) n h) in
      (
        s',
        rw (t, insert_generic_types) e,
        record {
          exprs = i.exprs;
          regions = i.regions;
          old_types = λ d k. i.old_types d (typed-Known_old did name s d k);
          new_types = λ d m. elim m [
            | inl same ↦
                i.old_types d (subst (Known (typed did name s)) same (typed-Known did name s))
            | inr later ↦ i.new_types d later
          ];
        },
      )

  NotAtTop-of :
      (s : Subst E T)
      → ((d : DefId) → c.types.contains_key_at_top s.types d ≡ false)
      → (ds : List DefId) → NotAtTop s ds
  unfolding NotAtTop
  NotAtTop-of s h [] = tt
  NotAtTop-of s h (d ∷ ds) = (h d, NotAtTop-of s h ds)

  insert_parent_types-Inserted :
      (parent : Option Hir.Impl)
      → Distinct (parent_dids parent)
      → (s : Subst E T) × (insert_parent_types c parent (empty c.exprs c.types) ≡ some s)
        × Inserted (parent_dids parent) (empty c.exprs c.types) s
        × ((d : DefId) → c.types.contains_key_at_top s.types d ≡ false)
  unfolding insert_parent_types
  insert_parent_types-Inserted none d = (
    _,
    refl,
    record {
      exprs = refl;
      regions = refl;
      old_types = λ did k. k;
      new_types = λ did m. elim m [ ];
    },
    laws.at_top_new,
  )
  insert_parent_types-Inserted (some parent) d =
      let (s, e, i) =
        insert_generic_types-Inserted parent.generics (empty c.exprs c.types) d
          (NotAtTop-of _ laws.at_top_new (dids parent.generics)) in
      (
        push_type_layer c.exprs c.types s,
        rw (e, insert_parent_types) refl,
        record {
          exprs = i.exprs;
          regions = i.regions;
          old_types = λ did k. let (p, h) = i.old_types did k in (p, laws.get_push s.types did ∙ h);
          new_types = λ did m. let (p, h) = i.new_types did m in (p, laws.get_push s.types did ∙ h);
        },
        laws.at_top_push s.types,
      )

  -- Both layers.
  pub insert_types-Known :
      (parent : Option Hir.Impl) (generics : List Hir.GenericParam)
      → Distinct (parent_dids parent)
      → Distinct (dids generics)
      → (s s' : Subst E T) × (insert_parent_types c parent (empty c.exprs c.types) ≡ some s)
        × (insert_generic_types c generics s ≡ some s')
        × (s'.exprs ≡ c.exprs.new)
        × (s'.regions ≡ [])
        × ((did : DefId)
            → Member did (parent_dids parent) ⊎ Member did (dids generics)
            → Known s' did)
  insert_types-Known parent generics dp dg =
      let (s, e, i, top) = insert_parent_types-Inserted parent dp in
      let (s', e', i') =
        insert_generic_types-Inserted generics s dg (NotAtTop-of s top (dids generics)) in
      (
        s,
        s',
        e,
        e',
        i'.exprs ∙ i.exprs,
        i'.regions ∙ i.regions,
        λ did m. elim m [
          | inl m ↦ i'.old_types did (i.new_types did m)
          | inr m ↦ i'.new_types did m
        ],
      )
