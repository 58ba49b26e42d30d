-- ===== src/Config/Names.antt =====
-- internal/config/config.go: the names of an accepted configuration.
use infer_swap.Common.{
  Bool, true, false, not, ◌&&◌, ◌||◌, ◌≡◌, refl, ap, subst, ◌∙◌, inl, inr, some, List, [], ◌∷◌,
  String, ok, >>=-eq-ok, guard-eq-ok, ok-inj, guard, arith, same_text, eq_iff, is_blank, Bool-cases,
}
use infer_swap.Config.Types.{RawModel, Model, Config}
use infer_swap.Config.Models.{to_model}
use infer_swap.Config.Load.{
  find, has_key, add_aliases, register, Registry, index_models, index_aliases,
}

find-has_key :
    {V : Type 0} (k : String) (m : List (String × V)) (v : V)
    → find k m ≡ some v
    → has_key k m ≡ true
find-has_key k [] v h = cc
find-has_key k ((j, w) ∷ m) v h = ground (arith, find-has_key k m v)

-- A name that is new hides no other.
find-new :
    (k new id v : String) (names : List (String × String))
    → has_key new names ≡ false
    → find k names ≡ some v
    → find k ((new, id) ∷ names) ≡ some v
find-new k new id v names h f = elim (Bool-cases (same_text new k)) [
  | inl same ↦
      let e : new ≡ k = (eq_iff new k).0 same in
      absurd (ground (arith, find-has_key k names v f, subst (λ x. has_key x names ≡ false) e h))
  | inr other ↦ ground arith
]

-- What is found stays, when names are added.
abbrev Keeps : List (String × String) → List (String × String) → Type 0
Keeps ns ms = (k v : String) → find k ns ≡ some v → find k ms ≡ some v

add_aliases-Keeps :
    (id : String) (as_ : List String) (ns ms : List (String × String))
    → add_aliases id as_ ns ≡ ok ms
    → Keeps ns ms
unfolding add_aliases
add_aliases-Keeps id [] ns ms h k v f = subst (λ x. find k x ≡ some v) (ok-inj h) f
add_aliases-Keeps id (a ∷ as_) ns ms h k v f =
    let (_, g, h₁) = >>=-eq-ok (guard (not (has_key a ns)) _) _ h in
    let free : has_key a ns ≡ false = ground (arith, guard-eq-ok (not (has_key a ns)) _ g) in
    add_aliases-Keeps id as_ ((a, id) ∷ ns) ms h₁ k v (find-new k a id v ns free f)

abbrev pub is_among : String → List String → Bool
is_among k [] = false
is_among k (x ∷ xs) = same_text x k || is_among k xs

same_self : (k : String) → same_text k k ≡ true
same_self k = (eq_iff k k).1 refl

add_aliases-owned :
    (id : String) (as_ : List String) (ns ms : List (String × String)) (k : String)
    → add_aliases id as_ ns ≡ ok ms
    → is_among k as_ ≡ true
    → find k ms ≡ some id
unfolding add_aliases
add_aliases-owned id [] ns ms k h o = cc
add_aliases-owned id (a ∷ as_) ns ms k h o =
    let (_, _, h₁) = >>=-eq-ok (guard (not (has_key a ns)) _) _ h in
    elim (Bool-cases (same_text a k)) [
      | inl same ↦ add_aliases-Keeps id as_ ((a, id) ∷ ns) ms h₁ k id (ground arith)
      | inr other ↦ add_aliases-owned id as_ ((a, id) ∷ ns) ms k h₁ (ground arith)
    ]

own-find :
    (id : String) (as_ : List String) (ns ms : List (String × String)) (k : String)
    → add_aliases id as_ ((id, id) ∷ ns) ≡ ok ms
    → (same_text id k || is_among k as_) ≡ true
    → find k ms ≡ some id
own-find id as_ ns ms k h o = elim (Bool-cases (is_among k as_)) [
  | inl alias ↦ add_aliases-owned id as_ ((id, id) ∷ ns) ms k h alias
  | inr own ↦ add_aliases-Keeps id as_ ((id, id) ∷ ns) ms h k id (ground arith)
]

add_aliases-index :
    (id : String) (as_ : List String) (ns ms : List (String × String))
    → add_aliases id as_ ns ≡ ok ms
    → index_aliases id as_ ns ≡ ms
unfolding add_aliases
add_aliases-index id [] ns ms h = ok-inj h
add_aliases-index id (a ∷ as_) ns ms h =
    let (_, _, h₁) = >>=-eq-ok (guard (not (has_key a ns)) _) _ h in
    add_aliases-index id as_ ((a, id) ∷ ns) ms h₁

-- A model has a name: its id, or one of its aliases.
abbrev pub has_name : String → String → List (String × Model) → Bool
has_name name id [] = false
has_name name id ((j, m) ∷ ms) =
    (same_text j id && (same_text j name || is_among name m.aliases)) || has_name name id ms

-- The models of a registry and its names, which were `ns` before.
pub record IsRegistered (ns : List (String × String)) (models : List (String × Model))
    (ms : List (String × String)) : Type 0 where
  pub keeps : Keeps ns ms
  pub owned : (name id : String) → has_name name id models ≡ true → find name ms ≡ some id
  pub indexed : index_models models ns ≡ ms

pub register-IsRegistered :
    (parses : String → Bool) (cfg : Config) (raws : List (String × RawModel))
    (ns : List (String × String)) (r : Registry)
    → register parses cfg raws ns ≡ ok r
    → IsRegistered ns r.models r.names
unfolding register
register-IsRegistered parses cfg [] ns r h =
    subst (λ (x : Registry). IsRegistered ns x.models x.names) (ok-inj h)
      (record { keeps = λ k v f. f; owned = λ name id o. cc; indexed = refl })
register-IsRegistered parses cfg ((id, rm) ∷ raws) ns r h =
    let (_, _, h₁) = >>=-eq-ok (guard (not (is_blank id)) _) _ h in
    let (m, e₂, h₂) = >>=-eq-ok (to_model parses id cfg rm) _ h₁ in
    let (_, e₃, h₃) = >>=-eq-ok (guard (not (has_key id ns)) _) _ h₂ in
    let (more, e₄, h₄) = >>=-eq-ok (add_aliases id m.aliases ((id, id) ∷ ns)) _ h₃ in
    let (rest, e₅, h₅) = >>=-eq-ok (register parses cfg raws more) _ h₄ in
    let ih = register-IsRegistered parses cfg raws more rest e₅ in
    let free : has_key id ns ≡ false = ground (arith, guard-eq-ok (not (has_key id ns)) _ e₃) in
    subst (λ (x : Registry). IsRegistered ns x.models x.names) (ok-inj h₅)
      (record {
        keeps = λ k v f. ih.keeps k v (
            add_aliases-Keeps id m.aliases ((id, id) ∷ ns) more e₄ k v
              (find-new k id id v ns free f));
        owned = λ name j o. elim (Bool-cases (has_name name j rest.models)) [
          | inl later ↦ ih.owned name j later
          | inr now ↦
              let e : id ≡ j = (eq_iff id j).0 (ground arith) in
              subst (λ (x : String). find name rest.names ≡ some x) e
                (ih.keeps name id (own-find id m.aliases ns more name e₄ (ground arith)))
        ];
        indexed =
            ap (index_models rest.models) (add_aliases-index id m.aliases ((id, id) ∷ ns) more e₄)
            ∙ ih.indexed;
      })
