-- ===== src/Config/Accepted.antt =====
-- internal/config/config.go: what toConfig promises of the configuration it accepts.
use infer_swap.Common.{
  Bool, true, false, not, ◌&&◌, ◌||◌, ◌≡◌, sym, ap, subst, ◌∙◌, some, List, [], ◌∷◌, String, ok,
  >>=-eq-ok, guard-eq-ok, ok-inj, guard, arith, same_text, is_blank, is_empty, sle,
}
use infer_swap.Config.Types.{RawModel, RawFile, Model, Config}
use infer_swap.Config.Checks.{to_gpu}
use infer_swap.Config.Models.{to_model, resource}
use infer_swap.Config.Load.{
  find, has_key, add_aliases, register, Registry, index, index_models, index_aliases, resolve,
  fill_resources, to_config, globals_of, check_preload, raw_of,
}
use infer_swap.Config.Sound.{to_model_ok, IsServed, resource-IsFit}
use infer_swap.Config.Names.{is_among, has_name, register-IsRegistered}

-- The models before their resources: what their ids and limits are.
abbrev pub Started : List (String × Model) → Type 0
Started [] = Unit {0}
Started ((id, m) ∷ ms) =
    ((m.id ≡ id) × (is_blank id ≡ false) × (sle m.concurrency_limit 0 ≡ false)) × Started ms

-- Every model of a list may be served by.
abbrev pub AllServed : List (String × Model) → Type 0
AllServed [] = Unit {0}
AllServed ((id, m) ∷ ms) = IsServed id m × AllServed ms

register-Started :
    (parses : String → Bool) (cfg : Config) (raws : List (String × RawModel))
    (ns : List (String × String)) (r : Registry)
    → register parses cfg raws ns ≡ ok r
    → Started r.models
unfolding register
register-Started parses cfg [] ns r h = subst (λ (x : Registry). Started x.models) (ok-inj h) tt
register-Started parses cfg ((id, rm) ∷ raws) ns r h =
    let (_, e₁, h₁) = >>=-eq-ok (guard (not (is_blank id)) _) _ h in
    let (m, e₂, h₂) = >>=-eq-ok (to_model parses id cfg rm) _ h₁ in
    let (_, _, h₃) = >>=-eq-ok (guard (not (has_key id ns)) _) _ h₂ in
    let (more, _, h₄) = >>=-eq-ok (add_aliases id m.aliases ((id, id) ∷ ns)) _ h₃ in
    let (rest, e₅, h₅) = >>=-eq-ok (register parses cfg raws more) _ h₄ in
    let (own, _, positive) = to_model_ok parses id cfg rm m e₂ in
    let named : is_blank id ≡ false = ground (arith, guard-eq-ok (not (is_blank id)) _ e₁) in
    subst (λ (x : Registry). Started x.models) (ok-inj h₅)
      ((own, named, positive), register-Started parses cfg raws more rest e₅)

-- Filling in the resources leaves the names alone.
fill_resources-index :
    (raws : List (String × RawModel)) (ms out : List (String × Model)) (ns : List (String × String))
    → fill_resources raws ms ≡ ok out
    → index_models out ns ≡ index_models ms ns
unfolding fill_resources
fill_resources-index raws [] out ns h = ap (λ x. index_models x ns) (sym (ok-inj h))
fill_resources-index raws ((id, m) ∷ ms) out ns h =
    let (r, _, h₁) = >>=-eq-ok (resource (raw_of id raws) m.concurrency_limit) _ h in
    let (rest, e, h₂) = >>=-eq-ok (fill_resources raws ms) _ h₁ in
    ap (λ x. index_models x ns) (sym (ok-inj h₂))
    ∙ fill_resources-index raws ms rest (index_aliases id m.aliases ((id, id) ∷ ns)) e

fill_resources-has_name :
    (raws : List (String × RawModel)) (ms out : List (String × Model)) (name id : String)
    → fill_resources raws ms ≡ ok out
    → has_name name id out ≡ has_name name id ms
unfolding fill_resources
fill_resources-has_name raws [] out name id h = ap (λ x. has_name name id x) (sym (ok-inj h))
fill_resources-has_name raws ((j, m) ∷ ms) out name id h =
    let (r, _, h₁) = >>=-eq-ok (resource (raw_of j raws) m.concurrency_limit) _ h in
    let (rest, e, h₂) = >>=-eq-ok (fill_resources raws ms) _ h₁ in
    ap (λ x. has_name name id x) (sym (ok-inj h₂))
    ∙ ap (λ b. (same_text j id && (same_text j name || is_among name m.aliases)) || b)
        (fill_resources-has_name raws ms rest name id e)

fill_resources-AllServed :
    (raws : List (String × RawModel)) (ms out : List (String × Model))
    → Started ms
    → fill_resources raws ms ≡ ok out
    → AllServed out
unfolding fill_resources
fill_resources-AllServed raws [] out s h = subst AllServed (ok-inj h) tt
fill_resources-AllServed raws ((id, m) ∷ ms) out ((own, named, positive), s) h =
    let (r, e, h₁) = >>=-eq-ok (resource (raw_of id raws) m.concurrency_limit) _ h in
    let (rest, e₂, h₂) = >>=-eq-ok (fill_resources raws ms) _ h₁ in
    subst AllServed (ok-inj h₂) (
      record {
        own_id = own;
        some_id = named;
        limit = positive;
        fit = resource-IsFit (raw_of id raws) m.concurrency_limit r e;
      },
      fill_resources-AllServed raws ms rest s e₂,
    )

-- What the steps of toConfig give, when none of them fails.
pub record Steps (parses : String → Bool) (raw : RawFile) (cfg : Config) : Type 0 where
  pub globals : Config
  pub registry : Registry
  pub registered : register parses globals raw.models [] ≡ ok registry
  pub filled : fill_resources raw.models registry.models ≡ ok cfg.models
  pub names : cfg.aliases ≡ registry.names

pub to_config-Steps :
    (parses : String → Bool) (raw : RawFile) (cfg : Config)
    → to_config parses raw ≡ ok cfg
    → Steps parses raw cfg
unfolding to_config
to_config-Steps parses raw cfg h =
    let (g, _, h₁) = >>=-eq-ok (globals_of raw) _ h in
    let (_, _, h₂) = >>=-eq-ok (guard (not (is_empty raw.models)) _) _ h₁ in
    let (r, e₃, h₃) = >>=-eq-ok (register parses g raw.models []) _ h₂ in
    let (_, _, h₄) = >>=-eq-ok (check_preload g.preload r.models) _ h₃ in
    let (gpu, _, h₅) = >>=-eq-ok (to_gpu raw.gpu) _ h₄ in
    let (models, e₆, h₆) = >>=-eq-ok (fill_resources raw.models r.models) _ h₅ in
    record {
      globals = g;
      registry = r;
      registered = e₃;
      filled = e₆ ∙ ap (λ (x : Config). ok x.models) (ok-inj h₆);
      names = sym (ap (λ (x : Config). x.aliases) (ok-inj h₆));
    }

module _ (parses : String → Bool) (raw : RawFile) (cfg : Config)
    (accepted : to_config parses raw ≡ ok cfg) where
  -- Every model of an accepted configuration has its own key as its id, a positive limit of calls
  -- that its profile's concurrency covers, byte counts that are not negative, a residual that is no
  -- more than the larger peak, a limit of its bodies that is not negative, and an inference path
  -- that is absolute, has no `..` and no `?`, and is none of the control endpoints.
  pub to_config-AllServed : AllServed cfg.models
  to_config-AllServed =
      let s = to_config-Steps parses raw cfg accepted in
      fill_resources-AllServed raw.models s.registry.models cfg.models
        (register-Started parses s.globals raw.models [] s.registry s.registered) s.filled

  -- In an accepted configuration the id and every alias of a model lead to that model, whatever the
  -- order in which the models are visited.
  pub resolve-has_name :
      (name id : String) → has_name name id cfg.models ≡ true → resolve cfg name ≡ some id
  unfolding resolve
  resolve-has_name name id h =
      let s = to_config-Steps parses raw cfg accepted in
      let r = register-IsRegistered parses s.globals raw.models [] s.registry s.registered in
      let same = fill_resources-has_name raw.models s.registry.models cfg.models name id s.filled in
      ap (find name) s.names ∙ r.owned name id (sym same ∙ h)

  -- The names that toConfig gathers while it checks for duplicates are the ones that Index builds
  -- again without any check: Index leaves an accepted configuration as it is.
  pub index-to_config : index cfg ≡ cfg
  unfolding index
  index-to_config =
      let s = to_config-Steps parses raw cfg accepted in
      let r = register-IsRegistered parses s.globals raw.models [] s.registry s.registered in
      let same = fill_resources-index raw.models s.registry.models cfg.models [] s.filled in
      ap (λ x. record cfg { aliases = x }) (same ∙ r.indexed ∙ sym s.names)
