-- ===== src/Config/Sound.antt =====
-- internal/config/config.go: what holds of a configuration that has been accepted.
use infer_swap.Common.{
  ℕ, Bool, true, false, not, ◌||◌, ◌≡◌, sym, ap, subst, Option, none, some, String, ok, >>=-eq-ok,
  guard-eq-ok, ok-inj, arith, sle, slt, codes, is_absolute, has_dots, has_question, is_blank, guard,
  Option-cases, inl, inr,
}
use infer_swap.Config.Types.{RawModel, RawProfile, Model, Config}
use infer_swap.Config.Checks.{non_neg, validate_inference_path, is_control_path, pick_int}
use infer_swap.Config.Models.{
  override, check_argv, check_aliases, resource, resources_of, Resources, larger, check_concurrency,
  check_path, check_body_limit, check_profile_id, build_model, to_model,
}

-- A path that requests may be sent to.
abbrev pub IsPath : String → Type 0
IsPath path =
    (is_absolute (codes path) ≡ true)
    × ((has_dots (codes path) || has_question (codes path)) ≡ false)
    × (is_control_path path ≡ false)

-- The resources of a model with a limit are right.
pub record IsFit (limit : ℕ) (r : Resources) : Type 0 where
  pub load : slt r.profile.load_peak_bytes 0 ≡ false
  pub inference : slt r.profile.inference_peak_bytes 0 ≡ false
  pub residual : slt r.profile.unloaded_residual_bytes 0 ≡ false
  pub peak :
      slt
        (larger r.profile.load_peak_bytes r.profile.inference_peak_bytes)
        r.profile.unloaded_residual_bytes
      ≡ false
  pub most : sle r.profile.max_concurrency 0 ≡ false
  pub within : slt r.profile.max_concurrency limit ≡ false
  pub path_ok : IsPath r.path
  pub body : slt r.body 0 ≡ false

module _ {n : ℕ} where
  non_neg_ok : (v : Option ℕ) → non_neg v ≡ ok n → slt n 0 ≡ false
  unfolding non_neg
  non_neg_ok v h = ground arith

  check_body_limit_ok : (v : Option ℕ) → check_body_limit v ≡ ok n → slt n 0 ≡ false
  unfolding check_body_limit
  check_body_limit_ok v h = ground arith

  check_concurrency_ok :
      (v : Option ℕ) (limit : ℕ)
      → check_concurrency v limit ≡ ok n
      → (sle n 0 ≡ false) × (slt n limit ≡ false)
  unfolding check_concurrency
  check_concurrency_ok v limit h = (ground arith, ground arith)

validate_ok : (path : String) {u : Unit {0}} → validate_inference_path path ≡ ok u → IsPath path
unfolding validate_inference_path
validate_ok path h = (ground arith, ground arith, ground arith)

check_path_ok : (v : Option String) {path : String} → check_path v ≡ ok path → IsPath path
unfolding check_path
check_path_ok none h = cc
check_path_ok (some s) {path} h =
    let (_, _, h₁) = >>=-eq-ok (guard (not (is_blank s)) _) _ h in
    let (_, v, h₂) = >>=-eq-ok (validate_inference_path s) _ h₁ in
    subst IsPath (ground (arith, h₂)) (validate_ok s v)

resources_of-IsFit :
    (rm : RawModel) (p : RawProfile) (limit : ℕ) (r : Resources)
    → resources_of rm p limit ≡ ok r
    → IsFit limit r
unfolding resources_of
resources_of-IsFit rm p limit r h =
    let (_, _, h₁) = >>=-eq-ok (check_profile_id p.profile_id) _ h in
    let (load, e₂, h₂) = >>=-eq-ok (non_neg p.load_peak_bytes) _ h₁ in
    let (inf, e₃, h₃) = >>=-eq-ok (non_neg p.inference_peak_bytes) _ h₂ in
    let (residual, e₄, h₄) = >>=-eq-ok (non_neg p.unloaded_residual_bytes) _ h₃ in
    let (_, e₅, h₅) = >>=-eq-ok (guard (not (slt (larger load inf) residual)) _) _ h₄ in
    let (most, e₆, h₆) = >>=-eq-ok (check_concurrency p.max_concurrency limit) _ h₅ in
    let (path, e₇, h₇) = >>=-eq-ok (check_path rm.inference_path) _ h₆ in
    let (body, e₈, h₈) = >>=-eq-ok (check_body_limit rm.max_body_bytes) _ h₇ in
    subst (IsFit limit) (ok-inj h₈) (record {
      load = non_neg_ok _ e₂;
      inference = non_neg_ok _ e₃;
      residual = non_neg_ok _ e₄;
      peak = ground (arith, guard-eq-ok _ _ e₅);
      most = (check_concurrency_ok p.max_concurrency limit e₆).0;
      within = (check_concurrency_ok p.max_concurrency limit e₆).1;
      path_ok = check_path_ok _ e₇;
      body = check_body_limit_ok rm.max_body_bytes e₈;
    })

pub resource-IsFit :
    (rm : RawModel) (limit : ℕ) (r : Resources) → resource rm limit ≡ ok r → IsFit limit r
unfolding resource
resource-IsFit rm limit r h = elim (Option-cases rm.resource_profile) [
  | inl o ↦ absurd (ground arith)
  | inr (p, o) ↦ resources_of-IsFit rm p limit r (ground (arith, h))
]

-- A model that requests may be served by. `named` is its key.
pub record IsServed (named : String) (m : Model) : Type 0 where
  pub own_id : m.id ≡ named
  pub some_id : is_blank named ≡ false
  pub limit : sle m.concurrency_limit 0 ≡ false
  pub fit :
      IsFit m.concurrency_limit
        (record { profile = m.resource_profile; path = m.inference_path; body = m.max_body_bytes })

build_model_ok :
    (id : String) (globals : Config) (rm : RawModel) (url : String) (m : Model)
    → build_model id globals rm url ≡ ok m
    → (m.id ≡ id) × (m.aliases ≡ rm.aliases) × (sle m.concurrency_limit 0 ≡ false)
unfolding build_model
build_model_ok id globals rm url m h =
    let (_, e₁, h₁) = >>=-eq-ok (guard (not (sle (pick_int rm.concurrency_limit 1) 0)) _) _ h in
    let (_, _, h₂) =
      >>=-eq-ok (override (rm.timeouts "prepareTimeout") globals.prepare_timeout) _ h₁ in
    let (_, _, h₃) =
      >>=-eq-ok (override (rm.timeouts "healthCheckTimeout") globals.health_check_timeout) _ h₂ in
    let (_, _, h₄) =
      >>=-eq-ok (override (rm.timeouts "unloadTimeout") globals.unload_timeout) _ h₃ in
    let (_, _, h₅) = >>=-eq-ok (check_argv rm.prepare) _ h₄ in
    let (_, _, h₆) = >>=-eq-ok (check_aliases id rm.aliases) _ h₅ in
    let positive : sle (pick_int rm.concurrency_limit 1) 0 ≡ false =
      ground (arith, guard-eq-ok (not (sle (pick_int rm.concurrency_limit 1) 0)) _ e₁) in
    let built = ok-inj h₆ in
    (
      sym (ap (λ (x : Model). x.id) built),
      sym (ap (λ (x : Model). x.aliases) built),
      subst (λ (n : ℕ). sle n 0 ≡ false) (ap (λ (x : Model). x.concurrency_limit) built) positive,
    )

pub to_model_ok :
    (parses : String → Bool) (id : String) (globals : Config) (rm : RawModel) (m : Model)
    → to_model parses id globals rm ≡ ok m
    → (m.id ≡ id) × (m.aliases ≡ rm.aliases) × (sle m.concurrency_limit 0 ≡ false)
unfolding to_model
to_model_ok parses id globals rm m h = elim (Option-cases rm.base_url) [
  | inl o ↦ absurd (ground arith)
  | inr (url, o) ↦ build_model_ok id globals rm url m (ground (arith, h))
]
