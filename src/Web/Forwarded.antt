-- ===== src/Web/Forwarded.antt =====
-- internal/server/server.go: what handleInfer hands to the router.
use infer_swap.Common.{
  ℕ, Bool, true, false, ◌≡◌, refl, sym, ap, subst, ◌∙◌, inl, inr, some, String, length, leb, slt,
  arith, is_blank, Bool-cases, Option-cases, ok,
}
use infer_swap.Config.Types.{RawFile, Config, Model}
use infer_swap.Config.Load.{to_config, resolve, find}
use infer_swap.Config.Sound.{IsPath}
use infer_swap.Config.Resolved.{resolve-IsServed}
use infer_swap.Web.Infer.{
  Body, no_body, bytes, broken, Request, serve, refused, Limited, limited, failed, read_limited,
  limit_body, infer_model, handle_infer, handed, no_model, model_unknown, body_too_large,
}

-- A body that is no longer than a limit.
abbrev pub is_within : ℕ → Body → Bool
is_within n (bytes bs) = leb (length bs) n
is_within n no_body = true
is_within n (broken text) = false

read_limited-is_within :
    (r : Request) (n : ℕ) (b : Body) (r' : Request)
    → r.body ≡ b
    → read_limited r n b ≡ limited r'
    → (is_within n r'.body ≡ true) × (r'.path ≡ r.path) × (r'.model ≡ r.model)
unfolding read_limited
read_limited-is_within r n no_body r' e h =
    let same : r ≡ r' = cc in
    (
      ap (is_within n) (ap (λ (x : Request). x.body) (sym same) ∙ e),
      ap (λ (x : Request). x.path) (sym same),
      ap (λ (x : Request). x.model) (sym same),
    )
read_limited-is_within r n (broken text) r' e h = absurd cc
read_limited-is_within r n (bytes bs) r' e h = elim (Bool-cases (leb (length bs) n)) [
  | inl short ↦
      let same : limited (record r { body = bytes bs; content_length = length bs }) ≡ limited r' =
        ground arith in
      let kept : record r { body = bytes bs; content_length = length bs } ≡ r' = cc in
      (
        ap (λ (x : Request). is_within n x.body) (sym kept) ∙ short,
        ap (λ (x : Request). x.path) (sym kept),
        ap (λ (x : Request). x.model) (sym kept),
      )
  | inr long ↦ let bad : failed body_too_large ≡ limited r' = ground arith in absurd cc
]

-- What a served request is to be, for the request that came.
pub record IsForwarded (m : Model) (r' : Request) : Type 0 where
  pub own_path : r'.path ≡ m.inference_path
  pub no_query : r'.model ≡ ""
  pub within : slt 0 m.max_body_bytes ≡ true → is_within m.max_body_bytes r'.body ≡ true

limit_body-read :
    (r : Request) (n : ℕ) (r' : Request)
    → slt 0 n ≡ true
    → limit_body r n ≡ limited r'
    → read_limited r n r.body ≡ limited r'
unfolding limit_body
limit_body-read r n r' h e = elim (Bool-cases (slt n r.content_length)) [
  | inl announced ↦ let bad : failed body_too_large ≡ limited r' = ground arith in absurd cc
  | inr fits ↦ elim (Bool-cases (slt n 0)) [
    | inl negative ↦ absurd (ground (arith, h))
    | inr positive ↦ ground (arith, e)
  ]
]

handed-limited :
    (id : String) (x : Limited) (id' : String) (r' : Request)
    → handed id x ≡ serve id' r'
    → (id' ≡ id) × (x ≡ limited r')
handed-limited id (limited r) id' r' h = (cc, cc)
handed-limited id (failed e) id' r' h = absurd cc

infer_model-IsForwarded :
    (id : String) (m : Model) (r : Request) (id' : String) (r' : Request)
    → infer_model id m r ≡ serve id' r'
    → (id' ≡ id) × IsForwarded m r'
unfolding infer_model
infer_model-IsForwarded id m r id' r' h =
    let sent : Request = record r { path = m.inference_path; model = "" } in
    elim (Bool-cases (slt 0 m.max_body_bytes)) [
      | inl bounded ↦ elim (Bool-cases (slt m.max_body_bytes r.content_length)) [
        | inl announced ↦
            let bad : refused body_too_large ≡ serve id' r' = ground arith in absurd cc
        | inr fits ↦
            let step : handed id (limit_body sent m.max_body_bytes) ≡ serve id' r' = ground arith in
            let (same, kept) = handed-limited id (limit_body sent m.max_body_bytes) id' r' step in
            let read = limit_body-read sent m.max_body_bytes r' bounded kept in
            let (short, path, query) =
              read_limited-is_within sent m.max_body_bytes sent.body r' refl read in
            (same, record { own_path = path; no_query = query; within = λ _. short })
      ]
      | inr unbounded ↦
          let step : serve id sent ≡ serve id' r' = ground arith in
          let kept : sent ≡ r' = cc in
          (
            cc,
            record {
              own_path = ap (λ (x : Request). x.path) (sym kept);
              no_query = ap (λ (x : Request). x.model) (sym kept);
              within = λ b. absurd (ground (arith, b));
            },
          )
    ]

-- With a configuration that has been accepted, a request that handleInfer gives to the router goes to
-- the model that its name stands for. Its path is the model's inference path, so it is no control
-- endpoint, its query names no model, and its body has been read and is no longer than the model's
-- limit, if that is positive.
pub handle_infer-IsForwarded :
    (parses : String → Bool) (raw : RawFile) (cfg : Config) (zero_model : Model) (r : Request)
    (id : String) (r' : Request)
    → to_config parses raw ≡ ok cfg
    → handle_infer cfg zero_model r ≡ serve id r'
    → (resolve cfg r.model ≡ some id)
      × ((m : Model) × (find id cfg.models ≡ some m) × IsPath r'.path × IsForwarded m r')
unfolding handle_infer
handle_infer-IsForwarded parses raw cfg zero_model r id r' accepted h =
    elim (Bool-cases (is_blank r.model)) [
      | inl blank ↦ let bad : refused no_model ≡ serve id r' = ground arith in absurd cc
      | inr named ↦ elim (Option-cases (resolve cfg r.model)) [
        | inl unknown ↦
            let bad : refused model_unknown ≡ serve id r' = ground (arith, unknown) in absurd cc
        | inr (own, found) ↦
            let (m, there, served) = resolve-IsServed parses raw cfg r.model own accepted found in
            let step : infer_model own m r ≡ serve id r' = ground (arith, found, there) in
            let (same, f) = infer_model-IsForwarded own m r id r' step in
            (
              found ∙ ap some (sym same),
              (
                m,
                ap (λ x. find x cfg.models) same ∙ there,
                subst IsPath (sym f.own_path) served.fit.path_ok,
                f,
              ),
            )
      ]
    ]
