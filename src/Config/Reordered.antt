-- ===== src/Config/Reordered.antt =====
-- internal/config/config.go: the loop of toConfig over the models, in another order of the range.
use infer_swap.Common.{
  Bool, false, not, ◌≡◌, refl, sym, ap, ◌∙◌, List, [], ◌∷◌, String, ok, >>=-eq-ok, >>=-ok, guard-ok,
  guard-eq-ok, ok-inj, guard, arith, is_blank,
}
use infer_swap.Config.Types.{empty_id, id_is_alias, RawModel, Model, Config}
use infer_swap.Config.Models.{to_model}
use infer_swap.Config.Load.{find, has_key, add_aliases, register, Registry}
use infer_swap.Config.Order.{
  SameNames, add_aliases-cons, cons-add_aliases, add_aliases-cong, add_aliases-swap,
}

-- The same entries in another order.
pub data IsReordered {A : Type 0} : List A → List A → Type 0 where
  nothing : IsReordered [] []
  keep : {xs ys : List A} (x : A) → IsReordered xs ys → IsReordered (x ∷ xs) (x ∷ ys)
  swap : (x y : A) (xs : List A) → IsReordered (x ∷ y ∷ xs) (y ∷ x ∷ xs)
  chain : {xs ys zs : List A} → IsReordered xs ys → IsReordered ys zs → IsReordered xs zs

module _ (parses : String → Bool) (cfg : Config) where
  -- What the loop does at one model, if it goes on.
  record Entered (id : String) (rm : RawModel) (ns more : List (String × String)) : Type 0 where
    named : is_blank id ≡ false
    model : Model
    built : to_model parses id cfg rm ≡ ok model
    added : add_aliases id (id ∷ model.aliases) ns ≡ ok more

  register-Entered :
      (id : String) (rm : RawModel) (raws : List (String × RawModel)) (ns : List (String × String))
      (r : Registry)
      → register parses cfg ((id, rm) ∷ raws) ns ≡ ok r
      → (more : List (String × String)) × (rest : Registry) × Entered id rm ns more
        × (register parses cfg raws more ≡ ok rest)
        × (r.names ≡ rest.names)
  unfolding register
  register-Entered id rm raws ns r h =
      let (_, g₁, h₁) = >>=-eq-ok (guard (not (is_blank id)) _) _ h in
      let (m, e₂, h₂) = >>=-eq-ok (to_model parses id cfg rm) _ h₁ in
      let (_, g₃, h₃) = >>=-eq-ok (guard (not (has_key id ns)) _) _ h₂ in
      let (more, e₄, h₄) = >>=-eq-ok (add_aliases id m.aliases ((id, id) ∷ ns)) _ h₃ in
      let (rest, e₅, h₅) = >>=-eq-ok (register parses cfg raws more) _ h₄ in
      let free : has_key id ns ≡ false = ground (arith, guard-eq-ok (not (has_key id ns)) _ g₃) in
      (
        more,
        rest,
        record {
          named = ground (arith, guard-eq-ok (not (is_blank id)) _ g₁);
          model = m;
          built = e₂;
          added = cons-add_aliases id id m.aliases ns more free e₄;
        },
        e₅,
        sym (ap (λ (x : Registry). x.names) (ok-inj h₅)),
      )

  Entered-register :
      (id : String) (rm : RawModel) (raws : List (String × RawModel))
      (ns more : List (String × String)) (rest : Registry)
      → Entered id rm ns more
      → register parses cfg raws more ≡ ok rest
      → (r : Registry) × (register parses cfg ((id, rm) ∷ raws) ns ≡ ok r) × (r.names ≡ rest.names)
  unfolding register
  Entered-register id rm raws ns more rest e h =
      let (free, step) = add_aliases-cons id id e.model.aliases ns more e.added in
      (
        record { models = (id, e.model) ∷ rest.models; names = rest.names },
        >>=-ok (guard (not (is_blank id)) empty_id) _ (guard-ok _ empty_id (ap not e.named)) (
            >>=-ok (to_model parses id cfg rm) _ e.built (
              >>=-ok (guard (not (has_key id ns)) id_is_alias) _
                (guard-ok _ id_is_alias (ap not free))
                (>>=-ok (add_aliases id e.model.aliases ((id, id) ∷ ns)) _ step
                  (>>=-ok (register parses cfg raws more) _ h refl)))),
        refl,
      )

  register_nil :
      (ns ms : List (String × String)) (r : Registry)
      → SameNames ns ms
      → register parses cfg [] ns ≡ ok r
      → (r' : Registry) × (register parses cfg [] ms ≡ ok r') × SameNames r.names r'.names
  unfolding register
  register_nil ns ms r s h = (
    record { models = []; names = ms },
    refl,
    λ k. ap (λ (x : Registry). find k x.names) (sym (ok-inj h)) ∙ s k,
  )

  -- An accepted list of models is accepted with any names that mean the same.
  register-cong :
      (raws : List (String × RawModel)) (ns ms : List (String × String)) (r : Registry)
      → SameNames ns ms
      → register parses cfg raws ns ≡ ok r
      → (r' : Registry) × (register parses cfg raws ms ≡ ok r') × SameNames r.names r'.names
  register-cong [] ns ms r s h = register_nil ns ms r s h
  register-cong ((id, rm) ∷ raws) ns ms r s h =
      let (more, rest, e, step, names) = register-Entered id rm raws ns r h in
      let (more', added', same) = add_aliases-cong id (id ∷ e.model.aliases) ns ms more s e.added in
      let (rest', step', alike) = register-cong raws more more' rest same step in
      let e' : Entered id rm ms more' = record {
        named = e.named;
        model = e.model;
        built = e.built;
        added = added';
      } in
      let (r', h', names') = Entered-register id rm raws ms more' rest' e' step' in
      (r', h', λ k. ap (find k) names ∙ (alike k ∙ ap (find k) (sym names')))

  register-swap :
      (id₁ : String) (rm₁ : RawModel) (id₂ : String) (rm₂ : RawModel)
      (raws : List (String × RawModel)) (ns : List (String × String)) (r : Registry)
      → register parses cfg ((id₁, rm₁) ∷ (id₂, rm₂) ∷ raws) ns ≡ ok r
      → (r' : Registry) × (register parses cfg ((id₂, rm₂) ∷ (id₁, rm₁) ∷ raws) ns ≡ ok r')
        × SameNames r.names r'.names
  register-swap id₁ rm₁ id₂ rm₂ raws ns r h =
      let (a, r₁, e₁, step₁, names₁) = register-Entered id₁ rm₁ ((id₂, rm₂) ∷ raws) ns r h in
      let (b, r₂, e₂, step₂, names₂) = register-Entered id₂ rm₂ raws a r₁ step₁ in
      let (a', b', one, two, same) =
        add_aliases-swap id₁ id₂ (id₁ ∷ e₁.model.aliases) (id₂ ∷ e₂.model.aliases) ns a b e₁.added
          e₂.added in
      let (rest, step, alike) = register-cong raws b b' r₂ same step₂ in
      let f₁ : Entered id₁ rm₁ a' b' = record {
        named = e₁.named;
        model = e₁.model;
        built = e₁.built;
        added = two;
      } in
      let f₂ : Entered id₂ rm₂ ns a' = record {
        named = e₂.named;
        model = e₂.model;
        built = e₂.built;
        added = one;
      } in
      let (s₁, k₁, n₁) = Entered-register id₁ rm₁ raws a' b' rest f₁ step in
      let (s₂, k₂, n₂) = Entered-register id₂ rm₂ ((id₁, rm₁) ∷ raws) ns a' s₁ f₂ k₁ in
      (s₂, k₂, λ k. ap (find k) (names₁ ∙ names₂) ∙ (alike k ∙ ap (find k) (sym (n₂ ∙ n₁))))

  -- Where the loop of toConfig takes a list of models, it takes them in any other order, and every name
  -- leads to the same id after it. The names that are there before need only mean the same.
  pub register-IsReordered :
      {raws raws' : List (String × RawModel)}
      → IsReordered raws raws'
      → (ns ms : List (String × String)) (r : Registry) → SameNames ns ms
      → register parses cfg raws ns ≡ ok r
      → (r' : Registry) × (register parses cfg raws' ms ≡ ok r') × SameNames r.names r'.names
  register-IsReordered nothing ns ms r s h = register-cong [] ns ms r s h
  register-IsReordered {raws = _ ∷ xs} {raws' = _ ∷ ys} (keep (id, rm) p) ns ms r s h =
      let (more, rest, e, step, names) = register-Entered id rm xs ns r h in
      let (more', added', same) = add_aliases-cong id (id ∷ e.model.aliases) ns ms more s e.added in
      let (rest', step', alike) = register-IsReordered p more more' rest same step in
      let e' : Entered id rm ms more' = record {
        named = e.named;
        model = e.model;
        built = e.built;
        added = added';
      } in
      let (r', h', names') = Entered-register id rm ys ms more' rest' e' step' in
      (r', h', λ k. ap (find k) names ∙ (alike k ∙ ap (find k) (sym names')))
  register-IsReordered (swap (id₁, rm₁) (id₂, rm₂) xs) ns ms r s h =
      let (r₁, h₁, alike₁) = register-swap id₁ rm₁ id₂ rm₂ xs ns r h in
      let (r₂, h₂, alike₂) = register-cong ((id₂, rm₂) ∷ (id₁, rm₁) ∷ xs) ns ms r₁ s h₁ in
      (r₂, h₂, λ k. alike₁ k ∙ alike₂ k)
  register-IsReordered (chain p q) ns ms r s h =
      let (r₁, h₁, alike₁) = register-IsReordered p ns ms r s h in
      let (r₂, h₂, alike₂) = register-IsReordered q ms ms r₁ (λ k. refl) h₁ in
      (r₂, h₂, λ k. alike₁ k ∙ alike₂ k)
