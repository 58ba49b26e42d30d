-- ===== src/Config/Resolved.antt =====
-- internal/config/config.go: the names of an accepted configuration lead to its models only.
use infer_swap.Common.{
  Bool, true, not, ◌||◌, ◌≡◌, sym, ap, subst, ◌∙◌, ◌⊎◌, inl, inr, some, List, [], ◌∷◌, String, ok,
  >>=-eq-ok, ok-inj, guard, arith, same_text, is_blank, eq_iff, Bool-cases,
}
use infer_swap.Config.Types.{RawModel, RawFile, Model, Config}
use infer_swap.Config.Models.{to_model, resource}
use infer_swap.Config.Load.{
  find, has_key, add_aliases, register, Registry, resolve, fill_resources, to_config, raw_of,
}
use infer_swap.Config.Sound.{IsServed}
use infer_swap.Config.Accepted.{to_config-Steps, AllServed, to_config-AllServed}

find-head :
    (k j v w : String) (ns : List (String × String))
    → find k ((j, v) ∷ ns) ≡ some w
    → (w ≡ v) ⊎ (find k ns ≡ some w)
find-head k j v w ns h = elim (Bool-cases (same_text j k)) [
  | inl same ↦ let e : some w ≡ some v = ground arith in inl cc
  | inr other ↦ inr (ground arith)
]

find-add_aliases :
    (id : String) (as_ : List String) (ns ms : List (String × String)) (k w : String)
    → add_aliases id as_ ns ≡ ok ms
    → find k ms ≡ some w
    → (w ≡ id) ⊎ (find k ns ≡ some w)
unfolding add_aliases
find-add_aliases id [] ns ms k w h f = inr (subst (λ x. find k x ≡ some w) (sym (ok-inj h)) f)
find-add_aliases id (a ∷ as_) ns ms k w h f =
    let (_, _, h₁) = >>=-eq-ok (guard (not (has_key a ns)) _) _ h in
    elim (find-add_aliases id as_ ((a, id) ∷ ns) ms k w h₁ f) [
      | inl own ↦ inl own
      | inr before ↦ find-head k a id w ns before
    ]

has_key_self :
    {V : Type 0} (k j : String) (v : V) (ms : List (String × V))
    → k ≡ j
    → has_key k ((j, v) ∷ ms) ≡ true
has_key_self k j v ms e = ground (arith, (eq_iff j k).1 (sym e))

has_key-later :
    {V : Type 0} (k j : String) (v : V) (ms : List (String × V))
    → has_key k ms ≡ true
    → has_key k ((j, v) ∷ ms) ≡ true
has_key-later k j v ms h = ground (arith, h)

find-register :
    (parses : String → Bool) (cfg : Config) (raws : List (String × RawModel))
    (ns : List (String × String)) (r : Registry) (k w : String)
    → register parses cfg raws ns ≡ ok r
    → find k r.names ≡ some w
    → (has_key w r.models ≡ true) ⊎ (find k ns ≡ some w)
unfolding register
find-register parses cfg [] ns r k w h f =
    inr (subst (λ (x : Registry). find k x.names ≡ some w) (sym (ok-inj h)) f)
find-register parses cfg ((id, rm) ∷ raws) ns r k w h f =
    let (_, _, h₁) = >>=-eq-ok (guard (not (is_blank id)) _) _ h in
    let (m, _, h₂) = >>=-eq-ok (to_model parses id cfg rm) _ h₁ in
    let (_, _, h₃) = >>=-eq-ok (guard (not (has_key id ns)) _) _ h₂ in
    let (more, e₄, h₄) = >>=-eq-ok (add_aliases id m.aliases ((id, id) ∷ ns)) _ h₃ in
    let (rest, e₅, h₅) = >>=-eq-ok (register parses cfg raws more) _ h₄ in
    let models = ap (λ (x : Registry). has_key w x.models) (ok-inj h₅) in
    let names = ap (λ (x : Registry). find k x.names) (ok-inj h₅) in
    let own : w ≡ id → (has_key w r.models ≡ true) ⊎ (find k ns ≡ some w) =
      λ e. inl (sym models ∙ has_key_self w id m rest.models e) in
    elim (find-register parses cfg raws more rest k w e₅ (names ∙ f)) [
      | inl later ↦ inl (sym models ∙ has_key-later w id m rest.models later)
      | inr before ↦ elim (find-add_aliases id m.aliases ((id, id) ∷ ns) more k w e₄ before) [
        | inl e ↦ own e
        | inr first ↦ elim (find-head k id id w ns first) [ inl e ↦ own e | inr old ↦ inr old ]
      ]
    ]

fill_resources-has_key :
    (raws : List (String × RawModel)) (ms out : List (String × Model)) (k : String)
    → fill_resources raws ms ≡ ok out
    → has_key k out ≡ has_key k ms
unfolding fill_resources
fill_resources-has_key raws [] out k h = ap (λ x. has_key k x) (sym (ok-inj h))
fill_resources-has_key raws ((j, m) ∷ ms) out k h =
    let (r, _, h₁) = >>=-eq-ok (resource (raw_of j raws) m.concurrency_limit) _ h in
    let (rest, e, h₂) = >>=-eq-ok (fill_resources raws ms) _ h₁ in
    ap (λ x. has_key k x) (sym (ok-inj h₂))
    ∙ ap (λ b. same_text j k || b) (fill_resources-has_key raws ms rest k e)

-- A key that is there is found, with a model that may be served by.
find-IsServed :
    (ms : List (String × Model)) (k : String)
    → AllServed ms
    → has_key k ms ≡ true
    → (m : Model) × (find k ms ≡ some m) × IsServed k m
find-IsServed [] k s h = absurd cc
find-IsServed ((j, m) ∷ ms) k (s, rest) h = elim (Bool-cases (same_text j k)) [
  | inl same ↦ (m, ground arith, subst (λ x. IsServed x m) ((eq_iff j k).0 same) s)
  | inr other ↦ let (n, f, t) = find-IsServed ms k rest (ground arith) in (n, ground (arith, f), t)
]

-- In an accepted configuration a name leads to nothing but a model that may be served by.
pub resolve-IsServed :
    (parses : String → Bool) (raw : RawFile) (cfg : Config) (name id : String)
    → to_config parses raw ≡ ok cfg
    → resolve cfg name ≡ some id
    → (m : Model) × (find id cfg.models ≡ some m) × IsServed id m
unfolding resolve
resolve-IsServed parses raw cfg name id accepted found =
    let s = to_config-Steps parses raw cfg accepted in
    let known : (has_key id s.registry.models ≡ true) ⊎ (find name [] ≡ some id) =
      find-register parses s.globals raw.models [] s.registry name id s.registered
        (sym (ap (find name) s.names) ∙ found) in
    elim known [
      | inl here ↦
          find-IsServed cfg.models id (to_config-AllServed parses raw cfg accepted)
            (fill_resources-has_key raw.models s.registry.models cfg.models id s.filled ∙ here)
      | inr never ↦ absurd cc
    ]
